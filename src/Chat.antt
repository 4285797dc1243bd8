-- ===== src/Chat.antt =====
-- The chat programs of ch09/chattingProgram: TCPChattingServer.c and TCPChattingClient.c wait by
-- select, ex04.c and ex03.c by poll.
pub mod Loop
pub mod Pair
pub mod Rounds
pub mod Lossless
pub mod Ending
pub mod Tests
