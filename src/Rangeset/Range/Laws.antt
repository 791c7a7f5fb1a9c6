-- ===== src/Rangeset/Range/Laws.antt =====
-- The iterators of rangeset/src/range.rs compute the union, the difference and the intersection of
-- two ranges, and the tests on two ranges decide the set relations.
use tlsn_utils.Base.{
  ℕ, ◌≤◌, ◌<◌, ◌≡◌, true, false, not, ◌&&◌, ◌||◌, ◌-◌, ◌↔◌, List, [], ◌∷◌, arith, Run, done,
  collect, Returns,
}
use tlsn_utils.Rangeset.Range.{Range, ◌until◌, contains, is_disjoint, is_subset, is_superset}
use tlsn_utils.Rangeset.Range.DiffIter
use tlsn_utils.Rangeset.Range.DiffIter.{RangeDiffIter}
use tlsn_utils.Rangeset.Range.UnionIter
use tlsn_utils.Rangeset.Range.UnionIter.{RangeUnionIter}
use tlsn_utils.Rangeset.Range.IntersectionIter
use tlsn_utils.Rangeset.Range.IntersectionIter.{RangeIntersectionIter}
use tlsn_utils.Rangeset.Ranges.{covers, Canonical, find_end_ge}

-- The ranges that an iterator yields: three calls of `next` reach its end.
abbrev pub union_ranges : Range → Range → Run (List Range)
union_ranges a b = collect 3 (λ (s : RangeUnionIter). done (UnionIter.next s)) (UnionIter.new a b)

abbrev pub difference_ranges : Range → Range → Run (List Range)
difference_ranges a b = collect 3 (λ (s : RangeDiffIter). done (DiffIter.next s)) (DiffIter.new a b)

abbrev pub intersection_ranges : Range → Range → Run (List Range)
intersection_ranges a b =
    collect 3 (λ (s : RangeIntersectionIter). done (IntersectionIter.next s))
      (IntersectionIter.new a b)

-- The union of two ranges ends, is canonical and contains exactly the values of either range,
-- whether the ranges are empty, reversed, adjacent or overlapping.
pub union_ranges_lem :
    (a b : Range) (x : ℕ)
    → Returns
        (union_ranges a b)
        (λ out. Canonical out × (covers out x ≡ (contains a x || contains b x)))
unfolding collect UnionIter.new UnionIter.next
union_ranges_lem a b x = ground arith

-- The intersection of two ranges ends, is canonical and contains exactly the common values.
pub intersection_ranges_lem :
    (a b : Range) (x : ℕ)
    → Returns
        (intersection_ranges a b)
        (λ out. Canonical out × (covers out x ≡ (contains a x && contains b x)))
unfolding collect IntersectionIter.new IntersectionIter.next
intersection_ranges_lem a b x = ground arith

-- The difference of two ranges ends and contains exactly the values of the first that are not in
-- the second.
pub difference_ranges_lem :
    (a b : Range) (x : ℕ)
    → Returns (difference_ranges a b) (λ out. covers out x ≡ (contains a x && not (contains b x)))
unfolding collect DiffIter.new DiffIter.next
difference_ranges_lem a b x = ground arith

-- The difference of a range and a non-empty range is canonical.
pub difference_ranges-Canonical :
    (a b : Range) → b.start < b.end → Returns (difference_ranges a b) Canonical
unfolding collect DiffIter.new DiffIter.next
difference_ranges-Canonical a b h = ground arith

-- The difference of a range and an empty or reversed range that starts strictly inside it is cut in
-- two adjacent ranges, which is not canonical.
pub difference_ranges_empty :
    (a b : Range)
    → a.start < b.start
    → b.start < a.end
    → b.end ≤ b.start
    → (difference_ranges a b ≡ done ((a.start until b.start) ∷ (b.start until a.end) ∷ []))
      × ¬ Canonical ((a.start until b.start) ∷ (b.start until a.end) ∷ [])
unfolding collect DiffIter.new DiffIter.next
difference_ranges_empty a b h k l = (ground arith, λ c. absurd (omega arith))

-- `seek_end_ge` of the three iterators gives what the default method would: the first range that
-- ends at `n` or past it.
seek_end_ge_agree :
    (a b : Range) (n : ℕ)
    → Returns
        (union_ranges a b)
        (λ out. (UnionIter.seek_end_ge n (UnionIter.new a b)).0 ≡ find_end_ge n out)
      × Returns
          (difference_ranges a b)
          (λ out. (DiffIter.seek_end_ge n (DiffIter.new a b)).0 ≡ find_end_ge n out)
      × Returns
          (intersection_ranges a b)
          (λ out. (IntersectionIter.seek_end_ge n (IntersectionIter.new a b)).0 ≡ find_end_ge n out)
unfolding collect UnionIter.new UnionIter.seek_end_ge DiffIter.new DiffIter.seek_end_ge
    IntersectionIter.new IntersectionIter.seek_end_ge
seek_end_ge_agree a b n = (ground arith, ground arith, ground arith)

-- On non-empty ranges `is_disjoint` decides whether no value is in both.
pub is_disjoint_iff :
    (a b : Range)
    → a.start < a.end
    → b.start < b.end
    → (is_disjoint a b ≡ true) ↔ ((x : ℕ) → (contains a x && contains b x) ≡ false)
unfolding is_disjoint
is_disjoint_iff a b h k = (λ e x. ground arith, λ all. ground (arith, all a.start, all b.start))

-- `is_subset` of a non-empty range decides whether the other one has all its values.
pub is_subset_iff :
    (a b : Range)
    → a.start < a.end
    → (is_subset a b ≡ true) ↔ ((x : ℕ) → contains a x ≡ true → contains b x ≡ true)
unfolding is_subset
is_subset_iff a b h = (λ e x. ground arith, λ all. ground (arith, all a.start, all (a.end - 1)))

-- `is_superset` decides whether the range has all values of a non-empty one.
pub is_superset_iff :
    (a b : Range)
    → b.start < b.end
    → (is_superset a b ≡ true) ↔ ((x : ℕ) → contains b x ≡ true → contains a x ≡ true)
unfolding is_superset
is_superset_iff a b h = (λ e x. ground arith, λ all. ground (arith, all b.start, all (b.end - 1)))
