-- ===== src/Lab2.antt =====
-- lab2: a smaller shell, with one pipe or one output redirection for each line.
pub mod Parsing
pub mod Execute
pub mod Plan
pub mod Builtin
pub mod Main
pub mod Tests
pub mod ChildHandler
