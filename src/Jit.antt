-- ===== src/Jit.antt =====
-- The just-in-time compiler of libebpf for Thumb-2 (libebpf/src/jit_thumb2.c, jit_thumb2.h, jit.h).
pub mod CInt
pub mod Encode
pub mod Emit
pub mod Cases
pub mod Build
pub mod Compile
pub mod Sizes
pub mod Layout
pub mod Visits
pub mod Placed
pub mod Targets
pub mod WideBranch
pub mod Branches
pub mod Distances
pub mod Landing
pub mod Entry
pub mod Arm
pub mod Constants
pub mod Carries
pub mod Sums
