-- ===== src/Core.antt =====
-- What both front ends share, crates/falcon-core.
pub mod Auth
pub mod Keyspace
pub mod Resources
pub mod Config
pub mod Profile
pub mod Node
pub mod Tls
pub mod Tests
