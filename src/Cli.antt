-- ===== src/Cli.antt =====
-- src/cli.cpp: the command line.
pub mod Options
pub mod Limit
pub mod Parse
