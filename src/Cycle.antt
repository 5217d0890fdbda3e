-- ===== src/Cycle.antt =====
-- Conversation-processing cycles: src/core/conversation_cycle_repository.py over the table of
-- alembic/versions/0013, 0014 and 0020.
pub mod Row
pub mod Schema
pub mod Admission
pub mod Lease
pub mod Queries
pub mod Transition
pub mod Messages
pub mod Wake
