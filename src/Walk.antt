-- ===== src/Walk.antt =====
-- src/walk.rs: the metadata walk over the groups of a store.
pub mod Sample
pub mod Paths
pub mod Join
pub mod Open
pub mod Discover
pub mod Eager
pub mod Snapshot
pub mod Recursive
