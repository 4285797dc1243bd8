-- ===== src/Terminal.antt =====
-- ch04/ex02.c and the key loop of ch09/chattingProgram/rpi6.c: programs that change the settings of the
-- terminal for a while.
pub mod Settings
pub mod Masking
pub mod Keys
pub mod Tests
