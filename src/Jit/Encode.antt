-- ===== src/Jit/Encode.antt =====
-- The encoders of libebpf/src/jit_thumb2.h, by what the instructions do.
pub mod Alu
pub mod Moves
pub mod Memory
pub mod Branch
