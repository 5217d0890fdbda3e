-- ===== src/Finalization.antt =====
-- src/core/finalization.py, with src/core/media.py and src/core/message_filter.py: which messages of
-- a ticket's history belong to a cycle, what their media wait for, and how they are cut into chunks.
pub mod Messages
pub mod History
pub mod Chunks
pub mod MediaStates
