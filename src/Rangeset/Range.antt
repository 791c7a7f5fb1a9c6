-- ===== src/Rangeset/Range.antt =====
-- rangeset/src/range.rs: one half-open range, and the iterators over the union, the difference and
-- the intersection of two ranges (in the modules below). `T: Copy + Ord` is taken to be the natural
-- numbers.
pub mod DiffIter
pub mod UnionIter
pub mod IntersectionIter
pub mod Once
pub mod Laws
use tlsn_utils.Base.{
  ℕ, ◌≤◌, ◌<◌, ◌≡◌, Bool, true, false, not, ◌&&◌, ◌||◌, Option, none, some, ltb, leb, min, max,
  if◌then◌else◌, then_some,
}

-- `core::ops::Range`
pub record Range : Type 0 where
  pub start : ℕ
  pub end : ℕ

-- `start..end`
infix 60 ◌until◌
abbrev pub ◌until◌ : ℕ → ℕ → Range
a until b = record { start = a; end = b }

-- `Range::is_empty` and `Range::contains` of the standard library
abbrev pub is_empty : Range → Bool
is_empty r = not (ltb r.start r.end)

abbrev pub contains : Range → ℕ → Bool
contains r x = leb r.start x && ltb x r.end

-- `Set<&Range<T>> for Range<T>`
unfoldable pub is_disjoint : Range → Range → Bool
is_disjoint self other = leb other.end self.start || leb self.end other.start

unfoldable pub is_subset : Range → Range → Bool
is_subset self other = leb other.start self.start && leb self.end other.end

unfoldable pub is_superset : Range → Range → Bool
is_superset self other = leb self.start other.start && leb other.end self.end
