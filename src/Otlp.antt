-- ===== src/Otlp.antt =====
-- Logs of OpenTelemetry: crates/thermite-core/src/ingest/otlp.
pub mod Record
pub mod Convert
pub mod Proto
pub mod Json
pub mod Events
pub mod Endpoint
pub mod Bounds
pub mod Whole
pub mod Ends
pub mod Tally
pub mod Counted
pub mod Clean
pub mod Answers
