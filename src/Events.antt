-- ===== src/Events.antt =====
-- The ledger of webhook events (src/core/webhook_event_repository.py) and the history of ticket
-- assignments (src/core/ticket_assignment_repository.py).
pub mod Ledger
pub mod Assignments
