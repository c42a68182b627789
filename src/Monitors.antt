-- ===== src/Monitors.antt =====
-- Cron monitoring: crates/thermite-core/src/monitors/mod.rs and monitors/schedule.rs.
pub mod Schedule
pub mod Intervals
pub mod Tables
pub mod CheckIns
pub mod Sweep
pub mod Reports
pub mod Stored
pub mod Totals
pub mod Silence
pub mod Failures
