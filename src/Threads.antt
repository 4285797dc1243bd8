-- ===== src/Threads.antt =====
-- Programs of ch08 besides the counting threads: signals and threads, and a cancelled thread.
pub mod Routing
pub mod Cleanup
mod Tests
