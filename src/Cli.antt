-- ===== src/Cli.antt =====
-- The command line program, cmd/lxcri.
pub mod Signal
pub mod PidFile
pub mod Commands
pub mod Main
pub mod Created
pub mod Missing
pub mod Exits
