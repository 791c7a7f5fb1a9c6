-- ===== src/Rangeset/Set/Push.antt =====
-- rangeset/src/set.rs, `push_range` and `union_mut`.
use tlsn_utils.Base.{
  ℕ, suc, ◌≡◌, Bool, true, false, ◌||◌, List, [], ◌∷◌, arith, All, refl, Bool-cases, inl, inr, ◌∙◌,
}
use tlsn_utils.Rangeset.Range.{Range, contains}
use tlsn_utils.Rangeset.Ranges.{covers, From, Canonical}
use tlsn_utils.Rangeset.Set.{push_range, push_all, union_mut}
use tlsn_utils.Rangeset.Set.Merge.{NonEmpty, sort_merge-Canonical, covers-sort_merge}

-- On a set of two ranges or more `push_range` touches only the tail.
push_range_cons :
    (r s : Range) (rest : List Range) (range : Range)
    → push_range (r ∷ s ∷ rest) range
      ≡ (r ∷ (push_range (s ∷ rest) range).0, (push_range (s ∷ rest) range).1)
unfolding push_range
push_range_cons r s rest range = ground arith

covers-push_range :
    (rs : List Range) (range : Range) (x : ℕ)
    → All NonEmpty rs
    → covers (push_range rs range).0 x ≡ (covers rs x || contains range x)
covers-push_range [] range x h = unfold push_range in ground arith
covers-push_range (r ∷ []) range x h = unfold push_range in ground arith
covers-push_range (r ∷ s ∷ rest) range x h =
    rw (push_range_cons, covers-push_range (s ∷ rest) range x h.1) (ground arith)

push_range-NonEmpty :
    (rs : List Range) (range : Range) → All NonEmpty rs → All NonEmpty (push_range rs range).0
push_range-NonEmpty [] range h = unfold push_range in ground arith
push_range-NonEmpty (r ∷ []) range h = unfold push_range in ground arith
push_range-NonEmpty (r ∷ s ∷ rest) range h =
    rw push_range_cons (h.0, push_range-NonEmpty (s ∷ rest) range h.1)

push_range-From :
    (lo : ℕ) (r : Range) (rest : List Range) (range : Range)
    → From lo (r ∷ rest)
    → (push_range (r ∷ rest) range).1 ≡ false
    → From lo (push_range (r ∷ rest) range).0
push_range-From lo r [] range h e = unfold push_range in ground arith
push_range-From lo r (s ∷ rest) range h e =
    rw push_range_cons
      (h.0, h.1, push_range-From (suc r.end) s rest range h.2 (rw push_range_cons at e))

-- A range that does not land out of order leaves the set canonical.
pub push_range-Canonical :
    (rs : List Range) (range : Range)
    → Canonical rs
    → (push_range rs range).1 ≡ false
    → Canonical (push_range rs range).0
push_range-Canonical [] range h e = unfold push_range in ground arith
push_range-Canonical (r ∷ rest) range h e = push_range-From 0 r rest range h e

push_all-true : (rs other : List Range) → (push_all rs other true).1 ≡ true
unfolding push_all
push_all-true rs [] = refl
push_all-true rs (range ∷ rest) = push_all-true (push_range rs range).0 rest

covers-push_all :
    (rs other : List Range) (b : Bool) (x : ℕ)
    → All NonEmpty rs
    → covers (push_all rs other b).0 x ≡ (covers rs x || covers other x)
unfolding push_all
covers-push_all rs [] b x h = ground arith
covers-push_all rs (range ∷ rest) b x h =
    let (rs', late) = push_range rs range in
    rw
      (
        covers-push_all rs' rest (b || late) x (push_range-NonEmpty rs range h),
        covers-push_range rs range x h,
      )
      (ground arith)

push_all-NonEmpty :
    (rs other : List Range) (b : Bool) → All NonEmpty rs → All NonEmpty (push_all rs other b).0
unfolding push_all
push_all-NonEmpty rs [] b h = h
push_all-NonEmpty rs (range ∷ rest) b h =
    let (rs', late) = push_range rs range in
    push_all-NonEmpty rs' rest (b || late) (push_range-NonEmpty rs range h)

push_all_flag : (rs other : List Range) (b : Bool) → (push_all rs other b).1 ≡ false → b ≡ false
push_all_flag rs other true e = cc (push_all-true rs other)
push_all_flag rs other false e = refl

push_all-Canonical :
    (rs other : List Range) (b : Bool)
    → Canonical rs
    → (push_all rs other b).1 ≡ false
    → Canonical (push_all rs other b).0
unfolding push_all
push_all-Canonical rs [] b h e = h
push_all-Canonical rs (range ∷ rest) b h e =
    let (rs', late) = push_range rs range in
    let ordered : (b || late) ≡ false = push_all_flag rs' rest (b || late) e in
    push_all-Canonical rs' rest (b || late) (push_range-Canonical rs range h (ground arith)) e

pub From-NonEmpty : (lo : ℕ) (rs : List Range) → From lo rs → All NonEmpty rs
From-NonEmpty lo [] h = tt
From-NonEmpty lo (r ∷ rs) h = (h.1, From-NonEmpty (suc r.end) rs h.2)

-- `union_mut` of a canonical set and any sequence of ranges (empty, reversed and overlapping ones
-- among them, in any order) is canonical and contains exactly the values of either.
pub union_mut_lem :
    (ranges other : List Range)
    → Canonical ranges
    → Canonical (union_mut ranges other)
      × ((x : ℕ) → covers (union_mut ranges other) x ≡ (covers ranges x || covers other x))
unfolding union_mut
union_mut_lem ranges other h = elim (Bool-cases (push_all ranges other false).1) [
  | inl late ↦ rw late (
    sort_merge-Canonical pushed ok,
    λ x. covers-sort_merge pushed x ok ∙ covers-push_all ranges other false x ne,
  )
  | inr ordered ↦ rw ordered (
    push_all-Canonical ranges other false h ordered,
    λ x. covers-push_all ranges other false x ne,
  )
]
  where
    pushed : List Range
    pushed = (push_all ranges other false).0

    ne : All NonEmpty ranges
    ne = From-NonEmpty 0 ranges h

    ok : All NonEmpty pushed
    ok = push_all-NonEmpty ranges other false ne
