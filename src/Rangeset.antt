-- ===== src/Rangeset.antt =====
-- The crate rangeset: sets of values stored as sorted lists of half-open ranges.
pub mod Range
pub mod Ranges
pub mod Set
pub mod Iter
mod Tests
