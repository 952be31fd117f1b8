-- ===== src/Cli.antt =====
-- crates/yams-cli: the command line.
pub mod Client
