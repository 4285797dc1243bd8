-- ===== src/Net.antt =====
-- The main functions around sockets: ch09 and ch09/chattingProgram.
pub mod Calls
pub mod Chat
pub mod Hello
pub mod Datagram
pub mod Web
pub mod Early
pub mod Servers
pub mod Rules
pub mod Closing
pub mod Mains
pub mod Tests
