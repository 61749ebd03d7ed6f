-- ===== src/Malloc/Alloc.antt =====
-- The theorems about allocate_object of lab2-src/MyMalloc.c.
mod Writes
mod Fit
mod Place
mod Chunk
mod Grow
pub use Fit.*
pub use Place.*
pub use Chunk.*
pub use Grow.*
