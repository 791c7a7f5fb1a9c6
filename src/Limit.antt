-- ===== src/Limit.antt =====
-- The crate futures-limit: a limit on the rate at which bytes are written.
pub mod Bucket
pub mod Rate
pub mod Delay
mod Tests
