-- ===== src/Dialogue.antt =====
-- ch07/exercise-1.c and ch07/exercise-2.c: two programs that talk in turns over two message queues.
pub mod SetUp
pub mod System
pub mod OneWay
pub mod Lossless
pub mod Tests
