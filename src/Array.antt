-- ===== src/Array.antt =====
-- src/array.rs: the names of data types, slicing a row-major buffer, and reading a slab of an array.
pub mod Dtype
pub mod Slice
pub mod Read
