-- ===== src/Programs.antt =====
-- The BPF programs: their shared state, the steps that they share, and the handlers.
pub mod World
pub mod Regs
pub mod Context
pub mod Submit
pub mod Fork
pub mod Syscall
pub mod Probe
