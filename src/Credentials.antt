-- ===== src/Credentials.antt =====
-- How a client names its project: the `X-Sentry-Auth` header of crates/thermite-core/src/auth.rs, and
-- the DSN, printed by crates/thermite-core/src/config.rs and read by crates/thermite-sdk/src/dsn.rs.
pub mod Header
pub mod Headers
pub mod Dsn
pub mod RoundTrip
