-- ===== src/Rangeset/Iter/Slices.antt =====
-- The iterators over the ranges of a set as implementations of `RangeIterator`.
use tlsn_utils.Base.{
  ℕ, ◌≤◌, ◌≡◌, refl, ap, true, false, Option, none, some, List, [], ◌∷◌, arith, ltb, if◌then◌else◌,
  head?, tail, drop, length, All, Bool-cases, inl, inr,
}
use tlsn_utils.Rangeset.Range.{Range}
use tlsn_utils.Rangeset.Set.{partition_point}
use tlsn_utils.Rangeset.Set.Merge.{NonEmpty}
use tlsn_utils.Rangeset.Set.Iter.{
  RangeIter, range_next, range_seek_end_ge, IntoRangeIter, into_next, into_seek_end_ge,
}
use tlsn_utils.Rangeset.Iter.{RangeIterator}

abbrev pub range_iter : RangeIterator RangeIter
range_iter = record { next = range_next; seek_end_ge = range_seek_end_ge }

abbrev pub owned_ranges : RangeIterator IntoRangeIter
owned_ranges = record { next = into_next; seek_end_ge = into_seek_end_ge }

-- The ranges that are left once those that end before `n` are passed over.
unfoldable pub skip : ℕ → List Range → List Range
skip n [] = []
skip n (r ∷ rs) = if ltb r.end n then skip n rs else r ∷ rs

drop-partition_point :
    (n : ℕ) (rs : List Range) → drop (partition_point (λ r. ltb r.end n) rs) rs ≡ skip n rs
unfolding partition_point skip
drop-partition_point n [] = refl
drop-partition_point n (r ∷ rs) = elim (Bool-cases (ltb r.end n)) [
  | inl e ↦ rw e (drop-partition_point n rs)
  | inr e ↦ rw e
]

pub range_seek_end_ge_lem :
    (n : ℕ) (rs : List Range)
    → range_seek_end_ge n (record { iter = rs })
      ≡ (head? (skip n rs), record { iter = tail (skip n rs) })
unfolding range_seek_end_ge range_next
range_seek_end_ge_lem n rs =
    ap (λ l. (head? l, record { iter = tail l })) (drop-partition_point n rs)

-- The item in the slot, and then the ranges of the iterator.
abbrev pub view : Option Range → RangeIter → List Range
view none it = it.iter
view (some r) it = r ∷ it.iter

pub view-head-tail : (rs : List Range) → view (head? rs) (record { iter = tail rs }) ≡ rs
view-head-tail [] = refl
view-head-tail (r ∷ rs) = refl

pub length-skip : (n : ℕ) (rs : List Range) → length (skip n rs) ≤ length rs
unfolding skip
length-skip n [] = omega arith
length-skip n (r ∷ rs) = ground (arith, length-skip n rs)

pub skip-NonEmpty : (n : ℕ) (rs : List Range) → All NonEmpty rs → All NonEmpty (skip n rs)
unfolding skip
skip-NonEmpty n [] h = tt
skip-NonEmpty n (r ∷ rs) h = ground (arith, skip-NonEmpty n rs)

pub skip_pass :
    (n : ℕ) (r : Range) (rs : List Range) → ltb r.end n ≡ true → skip n (r ∷ rs) ≡ skip n rs
unfolding skip
skip_pass n r rs e = rw e

pub skip_stop :
    (n : ℕ) (r : Range) (rs : List Range) → ltb r.end n ≡ false → skip n (r ∷ rs) ≡ r ∷ rs
unfolding skip
skip_stop n r rs e = rw e
