-- ===== src/Table.antt =====
-- libebpf/src/ebpf_map.c: the array of pointers and the hash map of strings.
pub mod Array
pub mod Hash
pub mod Map
pub mod Search
pub mod Changed
pub mod SetGet
