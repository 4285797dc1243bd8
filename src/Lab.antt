-- ===== src/Lab.antt =====
-- The minishell of lab/: one module for each part of the program.
pub mod Cells
pub mod Parsing
pub mod Builtin
pub mod OpType
pub mod Execute
pub mod Chain
pub mod ChildHandler
pub mod Main
mod Tests
