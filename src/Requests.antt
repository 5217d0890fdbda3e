-- ===== src/Requests.antt =====
-- Requests at Acessórias: src/core/acessorias_requests.py and
-- src/core/acessorias_request_provider.py. Every statement names the operation by its primary key,
-- and a cycle has at most one operation, so the state is the operation of one cycle.
pub mod Safe
pub mod Confidence
pub mod Payload
pub mod Row
pub mod Facts
pub mod Statements
pub mod Manual
pub mod Calls
pub mod Create
pub mod Recover
pub mod Adapter
