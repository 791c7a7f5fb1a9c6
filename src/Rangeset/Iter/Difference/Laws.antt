-- ===== src/Rangeset/Iter/Difference/Laws.antt =====
-- rangeset/src/iter.rs, `DifferenceIter` over the ranges of two sets: the rounds of its loop against
-- a recursion on the two lists.
use tlsn_utils.Base.{
  ℕ, ◌+◌, ◌*◌, ◌≤◌, ◌<◌, ◌≡◌, refl, sym, ap, ◌∙◌, true, false, some, List, [], ◌∷◌, arith, ltb, leb,
  ltb→lt, if◌then◌else◌, length, All, head?, tail, Bool-cases, inl, inr,
}
use tlsn_utils.Rangeset.Range.{Range, ◌until◌}
use tlsn_utils.Rangeset.Set.Merge.{NonEmpty}
use tlsn_utils.Rangeset.Set.Iter.{RangeIter}
use tlsn_utils.Rangeset.Iter.{Control, again}
use tlsn_utils.Rangeset.Iter.Slices.{
  skip, view, view-head-tail, length-skip, skip-NonEmpty, skip_pass, skip_stop,
}
use tlsn_utils.Rangeset.Iter.Loops.{Progress}
use tlsn_utils.Rangeset.Iter.Difference.{DifferenceIter, remainder}

-- The ranges that the iterator yields for the other ranges `ys` and the ranges `xs`.
unfoldable pub minus : List Range → List Range → List Range
minus ys [] = []
minus [] (a ∷ xs) = a ∷ xs
minus (b ∷ ys) (a ∷ xs) =
    if leb a.end b.start
    then a ∷ minus (b ∷ ys) xs
    else if leb b.end a.start
    then minus ys (a ∷ xs)
    else if ltb a.start b.start
    then (a.start until b.start)
      ∷ (if ltb b.end a.end then minus ys ((b.end until a.end) ∷ xs) else minus (b ∷ ys) xs)
    else if ltb b.end a.end
    then minus ys ((b.end until a.end) ∷ xs)
    else minus (b ∷ ys) xs

abbrev pub SetIter : Type 0
SetIter = DifferenceIter RangeIter RangeIter

abbrev pub items : SetIter → List Range
items s = minus (view s.other s.other_iter) (view s.this s.this_iter)

-- One more if the two first ranges have yet to be compared.
pub pending : List Range → List Range → ℕ
pending [] xs = 0
pending (b ∷ ys) [] = 0
pending (b ∷ ys) (a ∷ xs) = if leb b.end a.start then 0 else 1

abbrev pub size : List Range → List Range → ℕ
size ys xs = 2 * (length ys + length xs) + pending ys xs

abbrev pub measure : SetIter → ℕ
measure s = size (view s.other s.other_iter) (view s.this s.this_iter)

abbrev pub Valid : SetIter → Type 0
Valid s = All NonEmpty (view s.other s.other_iter) × All NonEmpty (view s.this s.this_iter)

abbrev pub Good : List Range → List Range → Control SetIter → Type 0
Good ys xs = Progress items measure Valid (minus ys xs) (size ys xs)

pub pending-le : (ys xs : List Range) → pending ys xs ≤ 1
unfolding pending
pending-le [] xs = omega arith
pending-le (b ∷ ys) [] = omega arith
pending-le (b ∷ ys) (a ∷ xs) = ground arith

pub minus-nil : (ys : List Range) → minus ys [] ≡ []
unfolding minus
minus-nil [] = refl
minus-nil (y ∷ ys) = refl

pub nil-minus : (xs : List Range) → minus [] xs ≡ xs
unfolding minus
nil-minus [] = refl
nil-minus (x ∷ xs) = refl

pub minus_right :
    (b a : Range) (ys xs : List Range)
    → leb a.end b.start ≡ false
    → leb b.end a.start ≡ true
    → minus (b ∷ ys) (a ∷ xs) ≡ minus ys (a ∷ xs)
minus_right b a ys xs e f = unfold minus in rw (e, f)

pub minus-skip :
    (a : Range) (ys xs : List Range)
    → NonEmpty a
    → All NonEmpty ys
    → minus ys (a ∷ xs) ≡ minus (skip a.start ys) (a ∷ xs)
minus-skip a [] xs h k = unfold skip in refl
minus-skip a (y ∷ ys) xs h k = elim (Bool-cases (ltb y.end a.start)) [
  | inl e ↦
      minus_right y a ys xs (ground arith) (ground arith)
      ∙ minus-skip a ys xs h k.1
      ∙ ap (λ l. minus l (a ∷ xs)) (sym (skip_pass a.start y ys e))
  | inr e ↦ ap (λ l. minus l (a ∷ xs)) (sym (skip_stop a.start y ys e))
]

pub size-skip : (n : ℕ) (ys xs : List Range) → (size (skip n ys) xs ≤ size ys xs)
unfolding skip
size-skip n [] xs = omega arith
size-skip n (y ∷ ys) xs = elim (Bool-cases (ltb y.end n)) [
  | inl e ↦ rw e (omega (arith, length-skip n ys, pending-le (skip n ys) xs))
  | inr e ↦ rw e (omega arith)
]

pub seek_other :
    (b a : Range) (ys xs : List Range)
    → leb a.end b.start ≡ false
    → leb b.end a.start ≡ true
    → All NonEmpty (b ∷ ys)
    → All NonEmpty (a ∷ xs)
    → let ds = skip a.start ys in
      Good (b ∷ ys) (a ∷ xs) (
        again (record {
          this_iter = record { iter = xs };
          other_iter = record { iter = tail ds };
          this = some a;
          other = head? ds;
        }))
seek_other b a ys xs e f k h =
    let ds = skip a.start ys in
    rw (view-head-tail ds) (
      minus_right b a ys xs e f ∙ minus-skip a ys xs h.0 k.1,
      omega (arith, length-skip a.start ys, pending-le ds (a ∷ xs)),
      (skip-NonEmpty a.start ys k.1, h),
    )

-- What is left of `a` behind `b`, in front of the other ranges.
pub minus-remainder :
    (b a : Range) (ys xs : List Range)
    → NonEmpty b
    → b.end < a.end
    → minus (b ∷ ys) ((b.end until a.end) ∷ xs) ≡ minus ys ((b.end until a.end) ∷ xs)
minus-remainder b a ys xs h k =
    minus_right b (b.end until a.end) ys xs (ground arith) (ground arith)

pub minus_cut :
    (b a : Range) (ys xs : List Range)
    → leb a.end b.start ≡ false
    → leb b.end a.start ≡ false
    → NonEmpty b
    → let rest = minus (b ∷ ys) (view (remainder a b) (record { iter = xs })) in
      minus (b ∷ ys) (a ∷ xs)
      ≡ (if ltb a.start b.start then (a.start until b.start) ∷ rest else rest)
minus_cut b a ys xs e f h = elim (Bool-cases (ltb b.end a.end)) [
  | inl g ↦ rw g (rw (minus-remainder b a ys xs h (ltb→lt _ _ g)) (unfold minus in rw (e, f, g)))
  | inr g ↦ rw g (unfold minus in rw (e, f, g))
]

pub size_cut :
    (b a : Range) (ys xs : List Range)
    → leb b.end a.start ≡ false
    → size (b ∷ ys) (view (remainder a b) (record { iter = xs })) < size (b ∷ ys) (a ∷ xs)
unfolding pending
size_cut b a ys xs f = elim (Bool-cases (ltb b.end a.end)) [
  | inl g ↦ rw (g, f) (ground arith)
  | inr g ↦ rw (g, f) (omega (arith, pending-le (b ∷ ys) xs))
]

pub NonEmpty-remainder :
    (b a : Range) (xs : List Range)
    → All NonEmpty xs
    → All NonEmpty (view (remainder a b) (record { iter = xs }))
NonEmpty-remainder b a xs h = ground arith
