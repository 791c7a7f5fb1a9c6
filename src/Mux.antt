-- ===== src/Mux.antt =====
-- The crate mux/mux: many streams over one connection.
pub mod Config
pub mod Header
pub mod Frame
pub mod Rtt
pub mod Stream
pub mod Connection
pub mod Flow
pub mod Chunks
mod Tests
