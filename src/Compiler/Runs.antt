-- ===== src/Compiler/Runs.antt =====
-- What the operations that an argument is compiled to do when `read_args` runs them.
pub mod Single
pub mod Kinds
pub mod Filters
pub mod Args
pub mod Ops
pub mod Entries
pub mod Entry
pub mod Point
pub mod Shape
