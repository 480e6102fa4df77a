-- ===== src/Cli.antt =====
-- cli.c: the commands of the shell.
pub mod Print
pub mod Config
pub mod Sessions
pub mod Screens
pub mod Execute
pub mod Keys
mod Tests
