-- ===== src/Epoll.antt =====
-- ch09/chattingProgram/ex05.c and ex06.c: servers around epoll.
pub mod Echo
pub mod Broadcast
pub mod Tests
