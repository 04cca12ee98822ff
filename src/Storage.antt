-- ===== src/Storage.antt =====
-- The cache engine, crates/falcon-storage/src/cache.rs.
pub mod Table
pub mod Random
pub mod Shard
pub mod Sizing
pub mod Engine
pub mod Pacer
pub mod Tests
