-- ===== src/Ingest.antt =====
-- Webhook ingestion (services/api/paytwin_api/services/ingest.py): authenticate, accept each delivery
-- once, and materialize it as a canonical event, a payment and an outbox row.
pub mod Envelope
pub mod Redact
pub mod Clean
pub mod Rows
pub mod Secrets
pub mod Accept
pub mod Materialize
pub mod Once
pub mod Authentic
pub mod Rotation
pub mod Sound
pub mod Replay
pub mod Materialized
pub mod Reached
mod Tests
