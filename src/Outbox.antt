-- ===== src/Outbox.antt =====
-- The notifications outbox and its two consumers: alert delivery in
-- crates/thermite-core/src/alerts.rs and triage in crates/thermite-core/src/api/triage.rs.
pub mod Row
pub mod Rows
pub mod Alerts
pub mod Triage
pub mod Delivery
pub mod Leases
