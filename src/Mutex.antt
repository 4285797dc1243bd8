-- ===== src/Mutex.antt =====
-- ch08/ex05.c and ch08/exercise.c: threads that count under a mutex.
pub mod System
pub mod Sums
pub mod Invariant
pub mod Exact
pub mod Ending
pub mod Runs
pub mod Main
pub mod Tests
