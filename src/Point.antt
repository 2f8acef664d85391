-- ===== src/Point.antt =====
-- hotpatch/src/cortex-m4_fbp.c and hotpatch/src/utils.c: breakpoints as dynamic patch points.
pub mod Address
pub mod Branch
pub mod Comparators
pub mod Bounds
pub mod Mode
