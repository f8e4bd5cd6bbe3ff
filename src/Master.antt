-- ===== src/Master.antt =====
-- crates/master: the metadata service of the cache.
pub mod Object
pub mod Quota
pub mod Lease
pub mod Allocator
pub mod Eviction
pub mod State
