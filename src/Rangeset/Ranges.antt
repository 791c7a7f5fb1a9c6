-- ===== src/Rangeset/Ranges.antt =====
-- What a list of ranges stands for, and the invariant of a `RangeSet` (rangeset/src/set.rs, lines
-- 8 to 16): the ranges are sorted, non-adjacent, non-intersecting and non-empty.
pub mod Laws
use tlsn_utils.Base.{
  ℕ, suc, ◌≤◌, ◌<◌, ◌≡◌, Bool, false, ◌||◌, List, [], ◌∷◌, Option, none, some, leb, if◌then◌else◌,
}
use tlsn_utils.Rangeset.Range.{Range, contains}

-- Does one of the ranges contain the value?
abbrev pub covers : List Range → ℕ → Bool
covers [] x = false
covers (r ∷ rs) x = contains r x || covers rs x

-- A canonical list of which every range starts at `lo` or later.
abbrev pub From : ℕ → List Range → Type 0
From lo [] = Unit
From lo (r ∷ rs) = (lo ≤ r.start) × (r.start < r.end) × From (suc r.end) rs

abbrev pub Canonical : List Range → Type 0
Canonical rs = From 0 rs

-- The default `seek_end_ge` of `RangeIterator`: the first range that ends at `n` or past it.
abbrev pub find_end_ge : ℕ → List Range → Option Range
find_end_ge n [] = none
find_end_ge n (r ∷ rs) = if leb n r.end then some r else find_end_ge n rs
