-- ===== src/Tests.antt =====
-- Runs of the theorems at concrete inputs, a module for each part of the program.
mod Limits
mod Counters
mod Health
mod Payloads
mod Events
mod Wire
mod Notifications
mod Sweeps
mod Digests
mod Clients
mod Crons
mod Requests
pub mod Stamps
pub mod Posts
pub mod Issues
mod Logs
