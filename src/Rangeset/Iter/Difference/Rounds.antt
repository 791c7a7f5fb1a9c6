-- ===== src/Rangeset/Iter/Difference/Rounds.antt =====
-- rangeset/src/iter.rs, `DifferenceIter` over the ranges of two sets: every round of the loop keeps
-- what the iterator stands for and takes the measure down.
use tlsn_utils.Base.{
  ◌<◌, ◌≡◌, ◌∙◌, true, Option, none, some, List, [], ◌∷◌, arith, ltb, leb, All, head?, tail,
  Bool-cases, inl, inr,
}
use tlsn_utils.Rangeset.Range.{Range}
use tlsn_utils.Rangeset.Set.Merge.{NonEmpty}
use tlsn_utils.Rangeset.Set.Iter.{range_next, range_seek_end_ge}
use tlsn_utils.Rangeset.Iter.{take_or_else, Control, give, again}
use tlsn_utils.Rangeset.Iter.Slices.{range_iter, skip, range_seek_end_ge_lem, view, skip-NonEmpty}
use tlsn_utils.Rangeset.Iter.Loops.{Progress}
use tlsn_utils.Rangeset.Iter.Difference.{round_both, round_this, round_from, round}
use tlsn_utils.Rangeset.Iter.Difference.Laws.{
  minus, SetIter, items, measure, size, Valid, Good, pending-le, minus-nil, nil-minus, minus-skip,
  minus_cut, size_cut, size-skip, seek_other, NonEmpty-remainder,
}

pub minus_before :
    (b a : Range) (ys xs : List Range)
    → leb a.end b.start ≡ true
    → minus (b ∷ ys) (a ∷ xs) ≡ a ∷ minus (b ∷ ys) xs
unfolding minus
minus_before b a ys xs e = rw e

round_both-Good :
    (b a : Range) (ys xs : List Range)
    → All NonEmpty (b ∷ ys)
    → All NonEmpty (a ∷ xs)
    → Good
        (b ∷ ys)
        (a ∷ xs)
        (round_both range_iter range_iter a (record { iter = xs }) b (record { iter = ys }))
round_both-Good b a ys xs k h = elim (Bool-cases (leb a.end b.start)) [
  | inl e ↦ rw e (minus_before b a ys xs e, omega (arith, pending-le (b ∷ ys) xs), (k, h.1))
  | inr e ↦ elim (Bool-cases (leb b.end a.start)) [
    | inl f ↦ rw (e, f, range_seek_end_ge_lem a.start ys) (seek_other b a ys xs e f k h)
    | inr f ↦ elim (Bool-cases (ltb a.start b.start)) [
      | inl g ↦
          rw (e, f, g)
            (
              minus_cut b a ys xs e f k.0 ∙ rw g,
              size_cut b a ys xs f,
              (k, NonEmpty-remainder b a xs h.1),
            )
      | inr g ↦
          rw (e, f, g)
            (
              minus_cut b a ys xs e f k.0 ∙ rw g,
              size_cut b a ys xs f,
              (k, NonEmpty-remainder b a xs h.1),
            )
    ]
  ]
]

-- A round that is good for what is left behind a seek is good for the whole.
Good-seek :
    (a : Range) (ys xs : List Range) (c : Control SetIter)
    → NonEmpty a
    → All NonEmpty ys
    → Good (skip a.start ys) (a ∷ xs) c
    → Good ys (a ∷ xs) c
Good-seek a ys xs (give none s) h k g = minus-skip a ys xs h k ∙ g
Good-seek a ys xs (give (some x) s) h k g =
    (minus-skip a ys xs h k ∙ g.0, omega (arith, size-skip a.start ys (a ∷ xs)), g.2)
Good-seek a ys xs (again s) h k g =
    (minus-skip a ys xs h k ∙ g.0, omega (arith, size-skip a.start ys (a ∷ xs)), g.2)

from_seek :
    (a : Range) (xs ds : List Range)
    → All NonEmpty (a ∷ xs)
    → All NonEmpty ds
    → Good ds (a ∷ xs) (
        round_this range_iter range_iter a
          (record { iter = xs })
          (head? ds, record { iter = tail ds }))
from_seek a xs [] h k =
    let less : size [] xs < size [] (a ∷ xs) = omega (arith, pending-le [] xs) in
    (rw (nil-minus, nil-minus), less, (tt, h.1))
from_seek a xs (d ∷ ds) h k = round_both-Good d a ds xs k h

pub round-Good :
    (s : SetIter)
    → Valid s
    → Progress items measure Valid (items s) (measure s) (round range_iter range_iter s)
unfolding round
round-Good s v = from_this s.this s.this_iter.iter s.other s.other_iter.iter v
  where
    from_other :
        (a : Range) (xs : List Range) (b : Option Range) (ys : List Range)
        → All NonEmpty (a ∷ xs)
        → All NonEmpty (view b (record { iter = ys }))
        → Good (view b (record { iter = ys })) (a ∷ xs) (
            round_this range_iter range_iter a
              (record { iter = xs })
              (take_or_else b (range_seek_end_ge a.start) (record { iter = ys })))
    from_other a xs none ys h k = rw (range_seek_end_ge_lem a.start ys) (
        Good-seek a ys xs _ h.0 k (from_seek a xs (skip a.start ys) h (skip-NonEmpty a.start ys k)))
    from_other a xs (some b) ys h k = round_both-Good b a ys xs k h

    from_this :
        (a : Option Range) (xs : List Range) (b : Option Range) (ys : List Range)
        → All NonEmpty (view b (record { iter = ys }))
          × All NonEmpty (view a (record { iter = xs }))
        → Good (view b (record { iter = ys })) (view a (record { iter = xs })) (
            round_from range_iter range_iter
              (take_or_else a range_next (record { iter = xs }))
              b
              (record { iter = ys }))
    from_this none [] b ys v = unfold range_next in minus-nil (view b (record { iter = ys }))
    from_this none (a ∷ xs) b ys v = unfold range_next in from_other a xs b ys v.1 v.0
    from_this (some a) xs b ys v = from_other a xs b ys v.1 v.0
