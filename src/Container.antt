-- ===== src/Container.antt =====
-- libebpf/src/hashmap.c: the arrays that hold pointers with and without a key.
pub mod Search
pub mod Sorted
pub mod ArrayMap
pub mod Shifts
pub mod Lookup
pub mod Insert
pub mod Update
pub mod SetGet
pub mod Remove
pub mod Misplaced
pub mod Growing
