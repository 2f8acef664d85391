-- ===== src/Service.antt =====
-- hotpatch/src/patch_service.c: the service that receives patches.
pub mod Commands
pub mod Ending
