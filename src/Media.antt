-- ===== src/Media.antt =====
-- Durable audio transcription and image extraction: src/core/durable_media_repository.py over the
-- tables `message_transcriptions` and `message_image_extractions` (alembic/versions/0001, 0014, 0024).
pub mod Row
pub mod Ops
pub mod Calls
pub mod Queries
pub mod Effects
pub mod Lifecycle
pub mod Fencing
