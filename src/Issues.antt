-- ===== src/Issues.antt =====
-- The issues of the read API: crates/thermite-core/src/api/issues.rs and api/activity.rs.
pub mod Status
pub mod History
pub mod Releases
pub mod NextRelease
pub mod Stays
pub mod Ignored
pub mod Listing
pub mod Pages
