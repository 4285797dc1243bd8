-- ===== src/Daemon.antt =====
-- ch09/chattingProgram/daemon.c: a process becomes a daemon.
pub mod Start
pub mod Streams
pub mod Tests
