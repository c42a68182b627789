-- ===== src/Retention.antt =====
-- The retention sweep of crates/thermite-core/src/retention.rs.
pub mod Policy
pub mod Batches
pub mod Sweep
pub mod Kept
pub mod Limits
pub mod Projects
pub mod Passes
