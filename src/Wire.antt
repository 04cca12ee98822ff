-- ===== src/Wire.antt =====
-- The binary protocol, crates/falcon-wire.
pub mod Protocol
pub mod Codec
pub mod Conn
pub mod Listener
pub mod Start
pub mod Tests
