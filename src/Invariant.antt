-- ===== src/Invariant.antt =====
-- What every state of the virtual machine satisfies, and that each part of VM/src/emulate.c keeps it.
mod Defs
pub mod Read
pub mod Write
pub mod Arith
pub mod Move
pub mod Control
pub mod Special
pub mod Step
pub mod Frame
pub mod Bounds
pub use Defs.{IsByte, IsWord, IsFlag, IsCall, IsWf, branch}
