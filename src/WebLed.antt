-- ===== src/WebLed.antt =====
-- ch09/webLED: a web server that switches a LED, and the library that it loads for this.
pub mod Led
pub mod Thread
pub mod Strip
pub mod Response
pub mod Connection
pub mod Tests
