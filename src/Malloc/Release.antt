-- ===== src/Malloc/Release.antt =====
-- The theorems about free_object of lab2-src/MyMalloc.c.
mod Writes
mod Search
mod Cases
mod Merge
mod Roundtrip
pub use Search.*
pub use Merge.*
pub use Roundtrip.*
