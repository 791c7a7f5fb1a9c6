-- ===== src/Rangeset/Iter/Intersection/Laws.antt =====
-- rangeset/src/iter.rs, `IntersectionIter` over the ranges of two sets: collecting it ends, and gives
-- the intersection.
use tlsn_utils.Base.{
  ℕ, ◌+◌, ◌≤◌, ◌≡◌, refl, ◌∙◌, true, false, Option, none, some, List, [], ◌∷◌, arith, leb, min, max,
  if◌then◌else◌, length, All, head?, tail, Bool-cases, inl, inr,
}
use tlsn_utils.Rangeset.Range.{Range, ◌until◌}
use tlsn_utils.Rangeset.Set.Iter.{RangeIter, range_next}
use tlsn_utils.Rangeset.Iter.{Control, again, take_or_else}
use tlsn_utils.Rangeset.Iter.Slices.{
  range_iter, skip, range_seek_end_ge_lem, view, view-head-tail, length-skip, skip-NonEmpty,
}
use tlsn_utils.Rangeset.Set.Merge.{NonEmpty}
use tlsn_utils.Rangeset.Iter.Loops.{Progress}
use tlsn_utils.Rangeset.Iter.Intersection.{IntersectionIter, round_both, round_a, round_from, round}

-- The ranges that the iterator yields, by recursion on the two lists.
unfoldable pub meet : List Range → List Range → List Range
meet [] bs = []
meet (a ∷ rest) [] = []
meet (a ∷ rest) (b ∷ bs) =
    if leb a.end b.start
    then meet rest (b ∷ bs)
    else if leb b.end a.start
    then meet (a ∷ rest) bs
    else (max a.start b.start until min a.end b.end)
      ∷ (if leb a.end b.end then meet rest (b ∷ bs) else meet (a ∷ rest) bs)

abbrev pub SetIter : Type 0
SetIter = IntersectionIter RangeIter RangeIter

abbrev pub items : SetIter → List Range
items s = meet (view s.a s.a_iter) (view s.b s.b_iter)

abbrev pub measure : SetIter → ℕ
measure s = length (view s.a s.a_iter) + length (view s.b s.b_iter)

meet-skip_left :
    (n : ℕ) (xs : List Range) (b : Range) (ys : List Range)
    → n ≤ b.start
    → meet xs (b ∷ ys) ≡ meet (skip n xs) (b ∷ ys)
unfolding meet skip
meet-skip_left n [] b ys h = refl
meet-skip_left n (x ∷ xs) b ys h = ground (arith, meet-skip_left n xs b ys h)

pub meet-nil : (xs : List Range) → meet xs [] ≡ []
unfolding meet
meet-nil [] = refl
meet-nil (x ∷ xs) = refl

meet-skip_right :
    (n : ℕ) (a : Range) (xs ys : List Range)
    → n ≤ a.start
    → NonEmpty a
    → All NonEmpty ys
    → meet (a ∷ xs) ys ≡ meet (a ∷ xs) (skip n ys)
unfolding meet skip
meet-skip_right n a xs [] h k l = refl
meet-skip_right n a xs (y ∷ ys) h k l = ground (arith, meet-skip_right n a xs ys h k)

abbrev pub Valid : SetIter → Type 0
Valid s = All NonEmpty (view s.a s.a_iter) × All NonEmpty (view s.b s.b_iter)

abbrev Good : List Range → List Range → Control SetIter → Type 0
Good xs ys = Progress items measure Valid (meet xs ys) (length xs + length ys)

-- The seek of the left side: the ranges that it passes over meet nothing.
seek_left :
    (a b : Range) (xs ys : List Range)
    → leb a.end b.start ≡ true
    → All NonEmpty (a ∷ xs)
    → All NonEmpty (b ∷ ys)
    → let ds = skip b.start xs in
      Good (a ∷ xs) (b ∷ ys) (
        again (record {
          a_iter = record { iter = tail ds };
          b_iter = record { iter = ys };
          a = head? ds;
          b = some b;
        }))
unfolding meet
seek_left a b xs ys e h k =
    let ds = skip b.start xs in
    rw (view-head-tail ds) (
      rw e (meet-skip_left b.start xs b ys (omega arith)),
      omega (arith, length-skip b.start xs),
      (skip-NonEmpty b.start xs h.1, k),
    )

seek_right :
    (a b : Range) (xs ys : List Range)
    → leb a.end b.start ≡ false
    → leb b.end a.start ≡ true
    → All NonEmpty (a ∷ xs)
    → All NonEmpty (b ∷ ys)
    → let ds = skip a.start ys in
      Good (a ∷ xs) (b ∷ ys) (
        again (record {
          a_iter = record { iter = xs };
          b_iter = record { iter = tail ds };
          a = some a;
          b = head? ds;
        }))
unfolding meet
seek_right a b xs ys f e h k =
    let ds = skip a.start ys in
    rw (view-head-tail ds) (
      rw (f, e) (meet-skip_right a.start a xs ys (omega arith) h.0 k.1),
      omega (arith, length-skip a.start ys),
      (h, skip-NonEmpty a.start ys k.1),
    )

pub meet_yield :
    (a b : Range) (xs ys : List Range)
    → leb a.end b.start ≡ false
    → leb b.end a.start ≡ false
    → meet (a ∷ xs) (b ∷ ys)
      ≡ (max a.start b.start until min a.end b.end)
        ∷ (if leb a.end b.end then meet xs (b ∷ ys) else meet (a ∷ xs) ys)
meet_yield a b xs ys e f = unfold meet in rw (e, f)

round_both-Good :
    (a b : Range) (xs ys : List Range)
    → All NonEmpty (a ∷ xs)
    → All NonEmpty (b ∷ ys)
    → Good
        (a ∷ xs)
        (b ∷ ys)
        (round_both range_iter range_iter a (record { iter = xs }) b (record { iter = ys }))
round_both-Good a b xs ys h k = elim (Bool-cases (leb a.end b.start)) [
  | inl e ↦ rw (e, range_seek_end_ge_lem b.start xs) (seek_left a b xs ys e h k)
  | inr e ↦ elim (Bool-cases (leb b.end a.start)) [
    | inl f ↦ rw (e, f, range_seek_end_ge_lem a.start ys) (seek_right a b xs ys e f h k)
    | inr f ↦
        rw (e, f)
          (elim (Bool-cases (leb a.end b.end)) [
            | inl g ↦ rw g (meet_yield a b xs ys e f ∙ rw g, omega arith, (h.1, k))
            | inr g ↦ rw g (meet_yield a b xs ys e f ∙ rw g, omega arith, (h, k.1))
          ])
  ]
]

-- Every round keeps what the iterator stands for and takes the measure down.
pub round-Good :
    (s : SetIter)
    → Valid s
    → Progress items measure Valid (items s) (measure s) (round range_iter range_iter s)
unfolding round
round-Good s v = from_a s.a s.a_iter.iter s.b s.b_iter.iter v
  where
    from_b :
        (a : Range) (xs : List Range) (b : Option Range) (ys : List Range)
        → All NonEmpty (a ∷ xs)
        → All NonEmpty (view b (record { iter = ys }))
        → Good (a ∷ xs) (view b (record { iter = ys })) (
            round_a range_iter range_iter a
              (record { iter = xs })
              (take_or_else b range_next (record { iter = ys })))
    from_b a xs none [] h k = unfold range_next in meet-nil (a ∷ xs)
    from_b a xs none (b ∷ ys) h k = unfold range_next in round_both-Good a b xs ys h k
    from_b a xs (some b) ys h k = round_both-Good a b xs ys h k

    from_a :
        (a : Option Range) (xs : List Range) (b : Option Range) (ys : List Range)
        → All NonEmpty (view a (record { iter = xs }))
          × All NonEmpty (view b (record { iter = ys }))
        → Good (view a (record { iter = xs })) (view b (record { iter = ys })) (
            round_from range_iter range_iter
              (take_or_else a range_next (record { iter = xs }))
              b
              (record { iter = ys }))
    from_a none [] b ys v = unfold range_next meet in refl
    from_a none (a ∷ xs) b ys v = unfold range_next in from_b a xs b ys v.0 v.1
    from_a (some a) xs b ys v = from_b a xs b ys v.0 v.1
