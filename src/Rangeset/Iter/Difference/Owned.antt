-- ===== src/Rangeset/Iter/Difference/Owned.antt =====
-- rangeset/src/iter.rs, `DifferenceIter` over the owning iterator of rangeset/src/set.rs.
use tlsn_utils.Base.{
  ℕ, zero, suc, ◌<◌, ◌≡◌, refl, ap, ◌∙◌, true, false, some, List, ◌∷◌, arith, out_of_fuel, leb,
}
use tlsn_utils.Rangeset.Range.{Range}
use tlsn_utils.Rangeset.Set.{partition_point}
use tlsn_utils.Rangeset.Set.Iter.{IntoRangeIter, into_next, into_seek_end_ge, into_range_iter}
use tlsn_utils.Rangeset.Iter.{RangeIterator, again, after, run_loop, run_loop-after}
use tlsn_utils.Rangeset.Iter.Slices.{owned_ranges}
use tlsn_utils.Rangeset.Iter.Difference.{DifferenceIter, new, round, next}

seek_first :
    (n p : ℕ) (b : Range) (rest : List Range)
    → b.end ≡ n
    → into_seek_end_ge n (record { pos = p; ranges = b ∷ rest })
      ≡ (some b, record { pos = 1; ranges = b ∷ rest })
unfolding into_seek_end_ge into_next partition_point
seek_first n p b rest e = ground arith

module _ {A : Type 0} (ia : RangeIterator A) (a b : Range) (rest : List Range) (it : A)
    (full_a : a.start < a.end) (full_b : b.start < b.end) (meet : b.end ≡ a.start) where
  abbrev stuck : ℕ → DifferenceIter A IntoRangeIter
  stuck p = record {
    this_iter = it;
    other_iter = record { pos = p; ranges = b ∷ rest };
    this = some a;
    other = some b;
  }

  gtr : leb a.end b.start ≡ false
  gtr = ground arith

  leb_meet : leb b.end a.start ≡ true
  leb_meet = ground arith

  round-stuck : (p : ℕ) → round ia owned_ranges (stuck p) ≡ again (stuck 1)
  unfolding round
  round-stuck p = rw (gtr, leb_meet, seek_first a.start p b rest meet)

  loop_stuck : (fuel p : ℕ) → run_loop fuel (round ia owned_ranges) (stuck p) ≡ out_of_fuel
  loop_stuck zero p = unfold run_loop in refl
  loop_stuck (suc fuel) p =
      run_loop-after fuel (round ia owned_ranges) (stuck p)
      ∙ ap (after (run_loop fuel (round ia owned_ranges))) (round-stuck p)
      ∙ loop_stuck fuel 1

  round-new :
      (s : A)
      → ia.next s ≡ (some a, it)
      → round ia owned_ranges (new s (into_range_iter (b ∷ rest))) ≡ again (stuck 1)
  unfolding round new into_range_iter
  round-new s e =
      rw (e, seek_first a.start 0 b rest meet, gtr, leb_meet, seek_first a.start 1 b rest meet)

-- If the first range of the owning iterator ends where the first range of `self` starts, then the first
-- call of `next` never ends: each seek goes back to the start of the vector and yields that range again.
pub next-stuck :
    {A : Type 0} (ia : RangeIterator A) (s it : A) (a b : Range) (rest : List Range)
    → ia.next s ≡ (some a, it)
    → a.start < a.end
    → b.start < b.end
    → b.end ≡ a.start
    → (fuel : ℕ) → next ia owned_ranges fuel (new s (into_range_iter (b ∷ rest))) ≡ out_of_fuel
unfolding next
next-stuck ia s it a b rest e f g m zero = unfold run_loop in refl
next-stuck ia s it a b rest e f g m (suc fuel) =
    run_loop-after fuel (round ia owned_ranges) (new s (into_range_iter (b ∷ rest)))
    ∙ ap (after (run_loop fuel (round ia owned_ranges))) (round-new ia a b rest it f g m s e)
    ∙ loop_stuck ia a b rest it f g m fuel 1
