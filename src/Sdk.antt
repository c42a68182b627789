-- ===== src/Sdk.antt =====
-- The client: transport/http.rs, event.rs, scope.rs, envelope.rs and `Client::capture` of
-- crates/thermite-sdk/src.
pub mod Transport
pub mod Fifo
pub mod Barrier
pub mod Event
pub mod Scope
pub mod Stamps
pub mod Frame
pub mod Received
