-- ===== src/Files.antt =====
-- ch03/ex04.c and ch03/execercise.c: a file is copied, and a file is printed.
pub mod Copy
pub mod Print
pub mod Tests
