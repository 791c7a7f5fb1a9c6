-- ===== src/Rangeset/Tests.antt =====
-- rangeset: the theorems at concrete sets, and runs of the operations.
use tlsn_utils.Base.{
  ◌+◌, ℕ, ◌<◌, ◌≡◌, refl, true, false, not, ◌&&◌, ◌||◌, some, List, [], ◌∷◌, arith, ltb, leb, done,
  out_of_fuel, collect,
}
use tlsn_utils.Rangeset.Range.{Range, ◌until◌}
use tlsn_utils.Rangeset.Range.Laws.{difference_ranges, difference_ranges_empty}
use tlsn_utils.Rangeset.Ranges.{covers, Canonical}
use tlsn_utils.Rangeset.Set.{
  RangeSet, new_from_iter, sort_merge, remove_empty, sort_unstable, insert, merge_from, union_mut,
  difference_mut, split_off, len,
}
use tlsn_utils.Rangeset.Set.Merge.{new_from_iter_lem}
use tlsn_utils.Rangeset.Set.Push.{union_mut_lem}
use tlsn_utils.Rangeset.Set.Difference.{difference_mut_lem}
use tlsn_utils.Rangeset.Set.Split.{split_off_lem}
use tlsn_utils.Rangeset.Set.Query.{contains-covers}
use tlsn_utils.Rangeset.Set.Len.{count_below, len-count_below}
use tlsn_utils.Rangeset.Set.{shift_left, shift_right}
use tlsn_utils.Rangeset.Set.Shift.{shift_right_lem}
use tlsn_utils.Rangeset.Set.Iter.{RangeIter, iter, range_next, into_range_iter, set_contains}
use tlsn_utils.Rangeset.Iter.Slices.{range_iter, owned_ranges}
use tlsn_utils.Rangeset.Iter.Intersection as Intersection
use tlsn_utils.Rangeset.Iter.Intersection.Values.{intersection_lem}
use tlsn_utils.Rangeset.Iter.Difference as Difference
use tlsn_utils.Rangeset.Iter.Difference.Values.{difference_lem}
use tlsn_utils.Rangeset.Iter.Difference.Owned.{next-stuck}

abbrev messy : List Range
messy = (7 until 9) ∷ (2 until 5) ∷ (4 until 4) ∷ (5 until 6) ∷ (9 until 3) ∷ []

abbrev two : RangeSet
two = (2 until 6) ∷ (8 until 12) ∷ []

abbrev other : RangeSet
other = (0 until 3) ∷ (5 until 9) ∷ []

two-Canonical : Canonical two
two-Canonical = omega arith

other-Canonical : Canonical other
other-Canonical = omega arith

new_from_iter-messy : new_from_iter messy ≡ (2 until 6) ∷ (7 until 9) ∷ []
unfolding new_from_iter sort_merge remove_empty sort_unstable insert merge_from
new_from_iter-messy = refl

new_from_iter_example :
    Canonical (new_from_iter messy) × ((x : ℕ) → covers (new_from_iter messy) x ≡ covers messy x)
new_from_iter_example = new_from_iter_lem messy

union_mut_example :
    Canonical (union_mut two messy)
    × ((x : ℕ) → covers (union_mut two messy) x ≡ (covers two x || covers messy x))
union_mut_example = union_mut_lem two messy two-Canonical

difference_mut_example :
    (out : RangeSet) × (difference_mut two messy ≡ some out)
    × Canonical out
    × ((x : ℕ) → covers out x ≡ (covers two x && not (covers messy x)))
difference_mut_example = difference_mut_lem two messy two-Canonical

split_off_example :
    Canonical (split_off two 9).0
    × Canonical (split_off two 9).1
    × (covers (split_off two 9).0 10 ≡ (covers two 10 && ltb 10 9))
    × (covers (split_off two 9).1 10 ≡ (covers two 10 && leb 9 10))
split_off_example = split_off_lem two 9 10 two-Canonical

contains_example : set_contains two 6 ≡ covers two 6
contains_example = contains-covers two 6 two-Canonical

two-below : (x : ℕ) → covers two x ≡ true → x < 12
two-below x e = ground arith

len_example : len two ≡ count_below (covers two) 12
len_example = len-count_below two 12 two-Canonical two-below

intersection_example :
    (out : List Range) × (collect 5
        (Intersection.next range_iter range_iter 5)
        (Intersection.new (iter two) (iter other))
      ≡ done out)
    × Canonical out
    × ((x : ℕ) → covers out x ≡ (covers two x && covers other x))
intersection_example = intersection_lem two other 5 two-Canonical other-Canonical (omega arith)

difference_example :
    (out : List Range) × (collect 10
        (Difference.next range_iter range_iter 10)
        (Difference.new (iter two) (iter other))
      ≡ done out)
    × Canonical out
    × ((x : ℕ) → covers out x ≡ (covers two x && not (covers other x)))
difference_example = difference_lem two other 10 two-Canonical other-Canonical (omega arith)

abbrev after_first : RangeIter
after_first = record { iter = [] }

next_first : range_iter.next (iter ((5 until 10) ∷ [])) ≡ (some (5 until 10), after_first)
unfolding range_next iter
next_first = refl

stuck_example :
    Difference.next range_iter owned_ranges 100
      (Difference.new (iter ((5 until 10) ∷ [])) (into_range_iter ((0 until 5) ∷ [])))
    ≡ out_of_fuel
stuck_example =
    next-stuck range_iter (iter ((5 until 10) ∷ [])) after_first (5 until 10) (0 until 5) []
      next_first (omega arith) (omega arith) refl 100

cut_example :
    (difference_ranges (2 until 9) (4 until 4) ≡ done ((2 until 4) ∷ (4 until 9) ∷ []))
    × ¬ Canonical ((2 until 4) ∷ (4 until 9) ∷ [])
cut_example =
    difference_ranges_empty (2 until 9) (4 until 4) (omega arith) (omega arith) (omega arith)

shift_right_example :
    (out : RangeSet) × (shift_right two 5 ≡ some out)
    × Canonical out
    × ((x : ℕ) → covers out (x + 5) ≡ covers two x)
    × ((x : ℕ) → (covers out x && ltb x 5) ≡ false)
    × (shift_left out 5 ≡ some two)
shift_right_example = shift_right_lem two 5 two-Canonical (omega arith)
