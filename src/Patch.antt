-- ===== src/Patch.antt =====
-- hotpatch/src/iotpatch.c: the registry of patches and the lookups at a patch point.
pub mod Context
pub mod Registry
pub mod Lookup
pub mod Filter
pub mod Placing
pub mod Notify
pub mod Nodes
pub mod FixedNotify
