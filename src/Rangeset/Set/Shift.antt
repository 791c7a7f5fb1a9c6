-- ===== src/Rangeset/Set/Shift.antt =====
-- rangeset/src/set.rs: `shift_left` and `shift_right`.
use tlsn_utils.Base.{
  ℕ, suc, ◌+◌, ◌-◌, ◌≤◌, ◌≡◌, refl, ap, false, ◌&&◌, some, List, [], ◌∷◌, ltb, le→leb, All,
  usize_max, arith,
}
use tlsn_utils.Rangeset.Range.{Range, ◌until◌}
use tlsn_utils.Rangeset.Ranges.{covers, From, Canonical}
use tlsn_utils.Rangeset.Ranges.Laws.{Range-ext, From-mono, covers_below}
use tlsn_utils.Rangeset.Set.{RangeSet, shift_left, shift_right}

moved : ℕ → List Range → List Range
moved n [] = []
moved n (r ∷ rs) = ((r.start + n) until (r.end + n)) ∷ moved n rs

moved-From : (n lo : ℕ) (rs : List Range) → From lo rs → From (lo + n) (moved n rs)
unfolding moved
moved-From n lo [] h = tt
moved-From n lo (r ∷ rs) h = (
  omega (arith, h.0),
  omega (arith, h.1),
  From-mono (suc r.end + n) (suc (r.end + n)) (moved n rs) (omega arith)
      (moved-From n (suc r.end) rs h.2),
)

covers-moved : (n x : ℕ) (rs : List Range) → covers (moved n rs) (x + n) ≡ covers rs x
unfolding moved
covers-moved n x [] = refl
covers-moved n x (r ∷ rs) = ground (arith, covers-moved n x rs)

-- Every range still ends within the machine's numbers.
abbrev pub IsFit : ℕ → RangeSet → Type 0
IsFit n rs = All (λ r. r.end + n ≤ usize_max) rs

shift_right-moved :
    (n lo : ℕ) (rs : List Range) → From lo rs → IsFit n rs → shift_right rs n ≡ some (moved n rs)
unfolding shift_right moved
shift_right-moved n lo [] h k = refl
shift_right-moved n lo (r ∷ rs) h k = rw (
  le→leb (r.start + n) usize_max (omega (arith, h.1, k.0)),
  le→leb (r.end + n) usize_max k.0,
  shift_right-moved n (suc r.end) rs h.2 k.1,
)

shift_left-moved : (n : ℕ) (rs : List Range) → shift_left (moved n rs) n ≡ some rs
unfolding shift_left moved
shift_left-moved n [] = refl
shift_left-moved n (r ∷ rs) =
    rw
      (
        le→leb n (r.start + n) (omega arith),
        le→leb n (r.end + n) (omega arith),
        shift_left-moved n rs,
      )
      (ap (λ s. some (s ∷ rs))
        (Range-ext ((r.start + n - n) until (r.end + n - n)) r (omega arith) (omega arith)))

-- If no range overflows, `shift_right` of a canonical set returns a canonical set that has a value moved
-- by the offset exactly if the set has the value, and none below the offset; and `shift_left` undoes it.
pub shift_right_lem :
    (ranges : RangeSet) (offset : ℕ)
    → Canonical ranges
    → IsFit offset ranges
    → (out : RangeSet) × (shift_right ranges offset ≡ some out)
      × Canonical out
      × ((x : ℕ) → covers out (x + offset) ≡ covers ranges x)
      × ((x : ℕ) → (covers out x && ltb x offset) ≡ false)
      × (shift_left out offset ≡ some ranges)
shift_right_lem ranges offset h k =
    let from : From offset (moved offset ranges) =
      From-mono (0 + offset) offset (moved offset ranges) (omega arith)
        (moved-From offset 0 ranges h) in
    (
      moved offset ranges,
      shift_right-moved offset 0 ranges h k,
      From-mono offset 0 (moved offset ranges) (omega arith) from,
      λ x. covers-moved offset x ranges,
      λ x. ground (arith, covers_below offset (moved offset ranges) x from),
      shift_left-moved offset ranges,
    )
