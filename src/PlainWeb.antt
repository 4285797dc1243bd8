-- ===== src/PlainWeb.antt =====
-- ch09/chattingProgram/webserver.c: the web server that sends files. It shares the text of its
-- answers with ch09/webLED/webserver.c, and has no LED and no start page.
pub mod Connection
pub mod Tests
