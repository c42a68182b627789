-- ===== src/Envelope.antt =====
-- The envelope parser of crates/thermite-core/src/protocol/envelope.rs.
pub mod Cursor
pub mod Parser
pub mod Suffix
pub mod Limits
pub mod RoundTrip
