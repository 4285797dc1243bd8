-- ===== src/PosixShm.antt =====
-- ch07/posix_shm.c: processes that write to and print one shared memory.
pub mod Program
pub mod Refine
pub mod Tests
