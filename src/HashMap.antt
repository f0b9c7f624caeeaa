-- ===== src/HashMap.antt =====
-- include/hashmap.h and src/hashmap.c: the chained table of names and its keyed hash.
pub mod SipHash
pub mod Chained
pub mod Lookup
mod Tests
