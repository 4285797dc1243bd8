-- ===== src/Raspi.antt =====
-- raspi/main.c: the menu that starts the LED and the light-sensor thread.
pub mod Menu
pub mod Session
pub mod Tests
pub mod Threads
