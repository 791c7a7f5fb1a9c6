-- ===== src/Plex.antt =====
-- The crate futures-plex: pipes in memory.
pub mod Stream
pub mod Close
mod Tests
