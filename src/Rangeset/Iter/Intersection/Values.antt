-- ===== src/Rangeset/Iter/Intersection/Values.antt =====
-- rangeset/src/iter.rs, `IntersectionIter` over the borrowing iterators of two sets: the values of what it yields.
use tlsn_utils.Base.{
  ℕ, suc, ◌+◌, ◌<◌, ◌≡◌, refl, true, false, ◌&&◌, List, [], ◌∷◌, arith, done, collect, leb, min,
  max, length, Bool-cases, inl, inr,
}
use tlsn_utils.Rangeset.Range.{Range}
use tlsn_utils.Rangeset.Ranges.{covers, From, Canonical}
use tlsn_utils.Rangeset.Ranges.Laws.{covers_below, From-mono}
use tlsn_utils.Rangeset.Set.{RangeSet}
use tlsn_utils.Rangeset.Set.Iter.{iter}
use tlsn_utils.Rangeset.Set.Push.{From-NonEmpty}
use tlsn_utils.Rangeset.Iter.Slices.{range_iter}
use tlsn_utils.Rangeset.Iter.Loops.{collect-run_loop}
use tlsn_utils.Rangeset.Iter.Intersection.{new, round, next}
use tlsn_utils.Rangeset.Iter.Intersection.Laws.{
  items, measure, Valid, meet, meet-nil, meet_yield, round-Good,
}

meet_left :
    (a b : Range) (xs ys : List Range)
    → leb a.end b.start ≡ true
    → meet (a ∷ xs) (b ∷ ys) ≡ meet xs (b ∷ ys)
unfolding meet
meet_left a b xs ys e = rw e

meet_right :
    (a b : Range) (xs ys : List Range)
    → leb a.end b.start ≡ false
    → leb b.end a.start ≡ true
    → meet (a ∷ xs) (b ∷ ys) ≡ meet (a ∷ xs) ys
unfolding meet
meet_right a b xs ys e f = rw (e, f)

covers-meet :
    (lo lo' : ℕ) (xs ys : List Range) (x : ℕ)
    → From lo xs
    → From lo' ys
    → covers (meet xs ys) x ≡ (covers xs x && covers ys x)
covers-meet lo lo' [] ys x h k = unfold meet in refl
covers-meet lo lo' (a ∷ xs) [] x h k = rw meet-nil (ground arith)
covers-meet lo lo' (a ∷ xs) (b ∷ ys) x h k =
    let below_a = covers_below (suc a.end) xs x h.2 in
    let below_b = covers_below (suc b.end) ys x k.2 in
    let left = covers-meet (suc a.end) lo' xs (b ∷ ys) x h.2 k in
    let right = covers-meet lo (suc b.end) (a ∷ xs) ys x h k.2 in
    elim (Bool-cases (leb a.end b.start)) [
      | inl e ↦ rw (meet_left a b xs ys e, left) (ground (arith, below_b))
      | inr e ↦ elim (Bool-cases (leb b.end a.start)) [
        | inl f ↦ rw (meet_right a b xs ys e f, right) (ground (arith, below_a))
        | inr f ↦ elim (Bool-cases (leb a.end b.end)) [
          | inl g ↦
              rw (meet_yield a b xs ys e f) (rw g (rw left (ground (arith, below_b, below_a))))
          | inr g ↦
              rw (meet_yield a b xs ys e f) (rw g (rw right (ground (arith, below_a, below_b))))
        ]
      ]
    ]

meet-From :
    (lo lo' : ℕ) (xs ys : List Range) → From lo xs → From lo' ys → From (max lo lo') (meet xs ys)
meet-From lo lo' [] ys h k = unfold meet in tt
meet-From lo lo' (a ∷ xs) [] h k = rw meet-nil tt
meet-From lo lo' (a ∷ xs) (b ∷ ys) h k =
    let left = meet-From (suc a.end) lo' xs (b ∷ ys) h.2 k in
    let right = meet-From lo (suc b.end) (a ∷ xs) ys h k.2 in
    elim (Bool-cases (leb a.end b.start)) [
      | inl e ↦
          rw (meet_left a b xs ys e)
            (From-mono _ (max lo lo') (meet xs (b ∷ ys)) (omega arith) left)
      | inr e ↦ elim (Bool-cases (leb b.end a.start)) [
        | inl f ↦
            rw (meet_right a b xs ys e f)
              (From-mono _ (max lo lo') (meet (a ∷ xs) ys) (omega arith) right)
        | inr f ↦ elim (Bool-cases (leb a.end b.end)) [
          | inl g ↦ rw (meet_yield a b xs ys e f) (
              rw g (
                omega arith,
                ground arith,
                From-mono _ (suc (min a.end b.end)) (meet xs (b ∷ ys)) (omega arith) left,
              ))
          | inr g ↦ rw (meet_yield a b xs ys e f) (
              rw g (
                omega arith,
                ground arith,
                From-mono _ (suc (min a.end b.end)) (meet (a ∷ xs) ys) (omega arith) right,
              ))
        ]
      ]
    ]

-- Collecting the intersection of two canonical sets by their borrowing iterators ends: with fuel past the number of ranges of the two, for the
-- loop of `next` and for the calls of `next`, it gives a canonical list of exactly the common values.
pub intersection_lem :
    (xs ys : RangeSet) (fuel : ℕ)
    → Canonical xs
    → Canonical ys
    → length xs + length ys < fuel
    → (out : List Range) × (collect fuel (next range_iter range_iter fuel) (new (iter xs) (iter ys))
        ≡ done out)
      × Canonical out
      × ((x : ℕ) → covers out x ≡ (covers xs x && covers ys x))
unfolding next new iter
intersection_lem xs ys fuel h k f = (
  meet xs ys,
  collect-run_loop items measure Valid (round range_iter range_iter) round-Good fuel fuel _ f f
      (From-NonEmpty 0 xs h, From-NonEmpty 0 ys k),
  meet-From 0 0 xs ys h k,
  λ x. covers-meet 0 0 xs ys x h k,
)
