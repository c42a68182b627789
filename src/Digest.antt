-- ===== src/Digest.antt =====
-- The digest of an event: crates/thermite-core/src/ingest/digest.rs and ingest/releases.rs.
pub mod Store
pub mod Steps
pub mod Retries
pub mod Redelivery
pub mod Recurrence
pub mod Counts
pub mod Consistent
pub mod Numbered
pub mod Events
