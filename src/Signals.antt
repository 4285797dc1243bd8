-- ===== src/Signals.antt =====
-- Programs of ch06 and ch06-2 on signals: handlers that count, and signals that are blocked.
pub mod Counting
pub mod Blocking
pub mod Groups
mod Tests
