-- ===== src/Dispatch.antt =====
-- What happens at a patch point: hotpatch/src/cortex-m4_fbp.c and hotpatch/src/fixed_patch_points.c.
pub mod Points
pub mod Verdicts
