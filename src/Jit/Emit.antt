-- ===== src/Jit/Emit.antt =====
-- The routines of libebpf/src/jit_thumb2.c that emit code. Each returns the half-words that it
-- hands to `emit2`, in their order.
pub mod Registers
pub mod Basic
pub mod Moves
pub mod Alu
pub mod Shifts
pub mod Memory
pub mod Jumps
