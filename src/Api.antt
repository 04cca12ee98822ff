-- ===== src/Api.antt =====
-- The REST interface (crates/falcon-api/src).
pub mod Base64
pub mod Rest
pub mod Roundtrip
pub mod Shared
pub mod Router
pub mod Credentials
pub mod Guard
pub mod Server
mod Tests
