-- ===== src/Cli.antt =====
-- The command line (crates/falcon-cli/src): a node's one-run settings, `falcon config` and
-- `falcon status`, and the clients of the REST interface.
pub mod Serve
pub mod Settings
pub mod Client
pub mod Process
pub mod Delivery
pub mod Session
pub mod Main
mod Tests
