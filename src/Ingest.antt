-- ===== src/Ingest.antt =====
-- The envelope and store endpoints: crates/thermite-core/src/ingest/mod.rs, with the rollup statement
-- of ingest/outcomes.rs.
pub mod Requests
pub mod Endpoints
pub mod Refusals
pub mod Loop
pub mod Payloads
pub mod Stored
pub mod Quota
pub mod Prefix
