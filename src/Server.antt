-- ===== src/Server.antt =====
-- The web server of lab5-src.
pub mod Buffer
pub mod Reasons
pub mod Messages
pub mod Reader
pub mod Listing
pub mod ContentType
pub mod Path
pub mod Request
pub mod Directory
pub mod Respond
pub mod Serve
mod Tests
