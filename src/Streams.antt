-- ===== src/Streams.antt =====
-- Programs of ch07 that send text one way: over a named pipe, over a message queue, and from a child.
pub mod Fifo
pub mod FromChild
mod Tests
