-- ===== src/Main.antt =====
-- src/iwtftpd.c with src/iwtftpd.h: the main program, from the command line to the event loop.
pub mod Options
pub mod Process
pub mod Start
mod Tests
