-- ===== src/Semaphore.antt =====
-- ch07/exercise-3.c and ch07/exercise-4.c: texts that pass through shared memory under two
-- semaphores.
pub mod Sender
pub mod Receiver
pub mod SetUp
pub mod System
pub mod Phases
pub mod Handshake
pub mod Tests
