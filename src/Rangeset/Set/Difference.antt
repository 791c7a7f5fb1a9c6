-- ===== src/Rangeset/Set/Difference.antt =====
-- rangeset/src/set.rs: what `remove_range` and `difference_mut` do to the values of a set.
use tlsn_utils.Base.{
  ℕ, suc, ◌≤◌, ◌<◌, ◌≡◌, refl, not, ◌&&◌, ◌||◌, some, List, [], ◌∷◌, ◌++◌, arith, ltb, leb,
  Bool-cases, inl, inr,
}
use tlsn_utils.Rangeset.Range.{Range, contains}
use tlsn_utils.Rangeset.Ranges.{covers, From, Canonical}
use tlsn_utils.Rangeset.Ranges.Laws.{From-mono, covers-append}
use tlsn_utils.Rangeset.Set.{RangeSet, remove_range, difference_mut}
use tlsn_utils.Rangeset.Set.Remove.{carve, carve_all, remove_from-carve_all}

carve-From :
    (range r : Range) (rest : List Range) (lo : ℕ)
    → range.start < range.end
    → lo ≤ r.start
    → r.start < r.end
    → From (suc r.end) rest
    → From lo (carve range r ++ rest)
carve-From range r rest lo h k n l =
    elim (Bool-cases (leb r.end range.start || leb range.end r.start)) [
      | inl e ↦ rw e (k, n, l)
      | inr e ↦ rw e (elim (Bool-cases (ltb r.start range.start)) [
        | inl a ↦ rw a (elim (Bool-cases (ltb range.end r.end)) [
          | inl b ↦ rw b (ground arith)
          | inr b ↦
              rw b (k, ground arith, From-mono (suc r.end) (suc range.start) rest (ground arith) l)
        ])
        | inr a ↦ rw a (elim (Bool-cases (ltb range.end r.end)) [
          | inl b ↦ rw b (ground arith)
          | inr b ↦ rw b (From-mono (suc r.end) lo rest (omega arith) l)
        ])
      ])
    ]

carve_all-From :
    (range : Range) (rs : List Range) (lo : ℕ)
    → range.start < range.end
    → From lo rs
    → From lo (carve_all range rs)
unfolding carve_all
carve_all-From range [] lo h k = tt
carve_all-From range (r ∷ rs) lo h k =
    carve-From range r (carve_all range rs) lo h k.0 k.1 (carve_all-From range rs (suc r.end) h k.2)

covers-carve :
    (range r : Range) (x : ℕ)
    → range.start < range.end
    → r.start < r.end
    → covers (carve range r) x ≡ (contains r x && not (contains range x))
covers-carve range r x h k = ground arith

covers-carve_all :
    (range : Range) (rs : List Range) (lo x : ℕ)
    → range.start < range.end
    → From lo rs
    → covers (carve_all range rs) x ≡ (covers rs x && not (contains range x))
unfolding carve_all
covers-carve_all range [] lo x h k = refl
covers-carve_all range (r ∷ rs) lo x h k =
    rw
      (
        covers-append (carve range r) (carve_all range rs) x,
        covers-carve range r x h k.1,
        covers-carve_all range rs (suc r.end) x h k.2,
      )
      (ground arith)

-- `remove_range` on a canonical set returns (its indexing never panics), and the new set is
-- canonical and contains exactly the old values that are not in `range`, which may be empty.
pub remove_range_lem :
    (ranges : RangeSet) (range : Range)
    → Canonical ranges
    → (out : RangeSet) × (remove_range ranges range ≡ some out)
      × Canonical out
      × ((x : ℕ) → covers out x ≡ (covers ranges x && not (contains range x)))
unfolding remove_range
remove_range_lem ranges range h = elim (Bool-cases (leb range.end range.start)) [
  | inl e ↦ (ranges, rw e, h, λ x. ground arith)
  | inr e ↦ (
    carve_all range ranges,
    rw e (remove_from-carve_all range 0 ranges (ground arith) h),
    carve_all-From range ranges 0 (ground arith) h,
    λ x. covers-carve_all range ranges 0 x (ground arith) h,
  )
]

-- `difference_mut` of a canonical set and any sequence of ranges returns, and the new set is
-- canonical and contains exactly the old values that are in none of the ranges.
pub difference_mut_lem :
    (ranges : RangeSet) (other : List Range)
    → Canonical ranges
    → (out : RangeSet) × (difference_mut ranges other ≡ some out)
      × Canonical out
      × ((x : ℕ) → covers out x ≡ (covers ranges x && not (covers other x)))
unfolding difference_mut
difference_mut_lem ranges [] h = (ranges, refl, h, λ x. ground arith)
difference_mut_lem ranges (range ∷ rest) h =
    let (mid, e, c, v) = remove_range_lem ranges range h in
    let (out, e', c', v') = difference_mut_lem mid rest c in
    (out, rw (e, difference_mut) e', c', λ x. ground (arith, v x, v' x))
