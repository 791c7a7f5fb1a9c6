-- ===== src/Rangeset/Iter/Difference/Values.antt =====
-- rangeset/src/iter.rs, `DifferenceIter` over the borrowing iterators of two sets: the values of what it yields.
use tlsn_utils.Base.{
  ℕ, suc, ◌+◌, ◌*◌, ◌≤◌, ◌<◌, ◌≡◌, false, not, ◌&&◌, none, List, [], ◌∷◌, arith, done, collect, ltb,
  leb, ltb→lt, if◌then◌else◌, length, Bool-cases, inl, inr,
}
use tlsn_utils.Rangeset.Range.{Range, ◌until◌}
use tlsn_utils.Rangeset.Ranges.{covers, From, Canonical}
use tlsn_utils.Rangeset.Ranges.Laws.{covers_below, From-mono}
use tlsn_utils.Rangeset.Set.{RangeSet}
use tlsn_utils.Rangeset.Set.Iter.{iter}
use tlsn_utils.Rangeset.Set.Push.{From-NonEmpty}
use tlsn_utils.Rangeset.Iter.Slices.{range_iter}
use tlsn_utils.Rangeset.Iter.Loops.{collect-run_loop}
use tlsn_utils.Rangeset.Iter.Difference.{new, round, next}
use tlsn_utils.Rangeset.Iter.Difference.Laws.{
  items, measure, Valid, minus, minus-nil, nil-minus, minus_right, pending-le,
}
use tlsn_utils.Rangeset.Iter.Difference.Rounds.{minus_before, round-Good}

-- The two cases in which the ranges overlap, by what is left of `a`.
abbrev rest_of : Range → Range → List Range → List Range → List Range
rest_of b a ys xs =
    if ltb b.end a.end then minus ys ((b.end until a.end) ∷ xs) else minus (b ∷ ys) xs

minus_overlap :
    (b a : Range) (ys xs : List Range)
    → leb a.end b.start ≡ false
    → leb b.end a.start ≡ false
    → minus (b ∷ ys) (a ∷ xs) ≡ (
        if ltb a.start b.start
        then (a.start until b.start) ∷ rest_of b a ys xs
        else rest_of b a ys xs)
unfolding minus
minus_overlap b a ys xs e f = rw (e, f)

covers-minus :
    (lo lo' : ℕ) (ys xs : List Range) (x : ℕ)
    → From lo ys
    → From lo' xs
    → covers (minus ys xs) x ≡ (covers xs x && not (covers ys x))
covers-minus lo lo' ys [] x k h = rw minus-nil
covers-minus lo lo' [] (a ∷ xs) x k h = rw nil-minus (ground arith)
covers-minus lo lo' (b ∷ ys) (a ∷ xs) x k h =
    let below_a = covers_below (suc a.end) xs x h.2 in
    let below_b = covers_below (suc b.end) ys x k.2 in
    let left = covers-minus lo (suc a.end) (b ∷ ys) xs x k h.2 in
    let right = covers-minus (suc b.end) lo' ys (a ∷ xs) x k.2 h in
    let cut = covers-minus (suc b.end) b.end ys ((b.end until a.end) ∷ xs) x k.2 in
    elim (Bool-cases (leb a.end b.start)) [
      | inl e ↦ rw (minus_before b a ys xs e) (rw left (ground (arith, below_b)))
      | inr e ↦ elim (Bool-cases (leb b.end a.start)) [
        | inl f ↦ rw (minus_right b a ys xs e f, right) (ground (arith, below_a))
        | inr f ↦ rw (minus_overlap b a ys xs e f) (elim (Bool-cases (ltb b.end a.end)) [
          | inl g ↦ rw g (ground (arith, cut (omega arith, ltb→lt _ _ g, h.2), below_b))
          | inr g ↦ rw g (ground (arith, left, below_a))
        ])
      ]
    ]

-- In front of what stands behind the cut comes the left part of `a`.
From-cut :
    (b a : Range) (rest : List Range) (lo m : ℕ)
    → lo ≤ a.start
    → lo ≤ m
    → b.start < m
    → From m rest
    → From lo (if ltb a.start b.start then (a.start until b.start) ∷ rest else rest)
From-cut b a rest lo m h l k r = elim (Bool-cases (ltb a.start b.start)) [
  | inl g ↦ rw g (h, ltb→lt _ _ g, From-mono m (suc b.start) rest k r)
  | inr g ↦ rw g (From-mono m lo rest l r)
]

minus-From : (lo lo' : ℕ) (ys xs : List Range) → From lo ys → From lo' xs → From lo' (minus ys xs)
minus-From lo lo' ys [] k h = rw minus-nil tt
minus-From lo lo' [] (a ∷ xs) k h = rw nil-minus h
minus-From lo lo' (b ∷ ys) (a ∷ xs) k h =
    let left = minus-From lo (suc a.end) (b ∷ ys) xs k h.2 in
    let right = minus-From (suc b.end) lo' ys (a ∷ xs) k.2 h in
    let cut = minus-From (suc b.end) b.end ys ((b.end until a.end) ∷ xs) k.2 in
    elim (Bool-cases (leb a.end b.start)) [
      | inl e ↦ rw (minus_before b a ys xs e) (h.0, h.1, left)
      | inr e ↦ elim (Bool-cases (leb b.end a.start)) [
        | inl f ↦ rw (minus_right b a ys xs e f) right
        | inr f ↦ rw (minus_overlap b a ys xs e f) (elim (Bool-cases (ltb b.end a.end)) [
          | inl g ↦ rw g (
              From-cut b a (minus ys ((b.end until a.end) ∷ xs)) lo' b.end h.0 (ground arith) k.1
                (cut (omega arith, ltb→lt _ _ g, h.2)))
          | inr g ↦ rw g (
              From-cut b a (minus (b ∷ ys) xs) lo' (suc a.end) h.0 (omega arith) (ground arith)
                left)
        ])
      ]
    ]

-- Collecting the difference of two canonical sets by their borrowing iterators ends: with fuel past twice the number of their ranges and one
-- more, for the loop of `next` and for the calls of `next`, it gives a canonical list of exactly the
-- values of the first set that are not in the second.
pub difference_lem :
    (xs ys : RangeSet) (fuel : ℕ)
    → Canonical xs
    → Canonical ys
    → 2 * (length xs + length ys) + 1 < fuel
    → (out : List Range) × (collect fuel (next range_iter range_iter fuel) (new (iter xs) (iter ys))
        ≡ done out)
      × Canonical out
      × ((x : ℕ) → covers out x ≡ (covers xs x && not (covers ys x)))
unfolding next new iter
difference_lem xs ys fuel h k f =
    let enough : measure (record {
      this_iter = record { iter = xs };
      other_iter = record { iter = ys };
      this = none;
      other = none;
    })
        < fuel =
      omega (arith, pending-le ys xs) in
    (
      minus ys xs,
      collect-run_loop items measure Valid (round range_iter range_iter) round-Good fuel fuel _
          enough enough (From-NonEmpty 0 ys k, From-NonEmpty 0 xs h),
      minus-From 0 0 ys xs k h,
      λ x. covers-minus 0 0 ys xs x k h,
    )
