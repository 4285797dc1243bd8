-- ===== src/MsgServer.antt =====
-- ch09/msg_server.c: two UDP ports, a queue of messages, and a thread that logs them.
pub mod Buffer
pub mod Queue
pub mod Refine
pub mod Server
pub mod Collector
mod Tests
