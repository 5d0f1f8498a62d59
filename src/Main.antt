-- ===== src/Main.antt =====
-- server/src/main.rs: the command line and the start of the server.
pub mod Args
pub mod Commands
pub mod Refusals
pub mod Start
pub mod Signals
pub mod Service
