-- ===== src/Event.antt =====
-- The accessors of crates/thermite-core/src/protocol/event.rs over a raw event payload.
pub mod Basic
pub mod Exception
pub mod Tags
pub mod Fingerprint
