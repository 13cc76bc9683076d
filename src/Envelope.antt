-- ===== src/Envelope.antt =====
-- genesis-core/src/envelope.rs: envelope encryption with a key service, and the hybrid envelope.
pub mod Wire
pub mod Hybrid
