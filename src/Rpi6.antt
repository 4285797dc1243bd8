-- ===== src/Rpi6.antt =====
-- ch09/chattingProgram/rpi6.c: a web server whose query string switches a LED.
pub mod Query
pub mod Connection
pub mod Tests
