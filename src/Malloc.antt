-- ===== src/Malloc.antt =====
-- The allocator of lab2-src/MyMalloc.c.
pub mod Memory
pub mod Objects
pub mod Layout
pub mod Alloc
pub mod Release
pub mod Interface
pub mod Requests
pub mod Service
mod Tests
