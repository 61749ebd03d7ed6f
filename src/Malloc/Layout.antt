-- ===== src/Malloc/Layout.antt =====
-- What the words of the heap stand for: a row of objects and gaps, laid end to end, with the free
-- objects linked in the order of their addresses.
mod Links
mod Frame
mod Relink
mod Replace
mod Extend
pub use Links.*
pub use Frame.*
pub use Relink.*
pub use Replace.*
pub use Extend.*
