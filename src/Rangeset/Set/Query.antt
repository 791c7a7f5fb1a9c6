-- ===== src/Rangeset/Set/Query.antt =====
-- rangeset/src/set.rs: `contains`, `min`, `max`, `end`, `len` and the conversions.
use tlsn_utils.Base.{
  ℕ, suc, ◌+◌, ◌-◌, ◌≤◌, ◌<◌, ◌≡◌, true, false, Option, none, some, List, [], ◌∷◌, arith, ltb, drop,
  head?, refl, ap, le→leb, get_last?, Bool-cases, inl, inr,
}
use tlsn_utils.Rangeset.Range.{Range, contains}
use tlsn_utils.Rangeset.Ranges.{covers, From, Canonical, find_end_ge}
use tlsn_utils.Rangeset.Ranges.Laws.{covers_below}
use tlsn_utils.Rangeset.Set.{RangeSet, partition_point, min, end, max}
use tlsn_utils.Rangeset.Set.Iter.{set_contains, range_seek_end_ge, range_next}

drop_partition :
    (rs : List Range) (n : ℕ)
    → head? (drop (partition_point (λ r. ltb r.end n) rs) rs) ≡ find_end_ge n rs
unfolding partition_point
drop_partition [] n = refl
drop_partition (r ∷ rs) n = elim (Bool-cases (ltb r.end n)) [
  | inl e ↦ rw (e, drop_partition rs n) (ground arith)
  | inr e ↦ rw e (ground arith)
]

find_contains :
    (lo : ℕ) (rs : List Range) (x : ℕ)
    → From lo rs
    → elim (find_end_ge x rs) [ none ↦ false | some r ↦ contains r x ] ≡ covers rs x
find_contains lo [] x h = refl
find_contains lo (r ∷ rs) x h =
    ground (arith, find_contains (suc r.end) rs x h.2, covers_below (suc r.end) rs x h.2)

-- On a canonical set `contains`, which looks at the first range that ends at the value or past it,
-- decides membership. (A range that ends exactly at the value hides no other, since the ranges are
-- not adjacent.)
pub contains-covers :
    (ranges : RangeSet) (x : ℕ) → Canonical ranges → set_contains ranges x ≡ covers ranges x
unfolding set_contains range_seek_end_ge range_next
contains-covers ranges x h = ground (arith, drop_partition ranges x, find_contains 0 ranges x h)

-- What `min` promises of a set.
abbrev pub IsMin : RangeSet → Option ℕ → Type 0
IsMin ranges none = ranges ≡ []
IsMin ranges (some m) = (covers ranges m ≡ true) × ((x : ℕ) → covers ranges x ≡ true → m ≤ x)

-- `min` of a canonical set is `None` exactly on the empty set, and else its least value.
pub min-IsMin : (ranges : RangeSet) → Canonical ranges → IsMin ranges (min ranges)
unfolding min
min-IsMin [] h = refl
min-IsMin (r ∷ rs) h = (ground arith, λ x e. ground (arith, covers_below (suc r.end) rs x h.2))

-- The values of the set lie below the end of its last range, which is the greatest value plus one.
last_lem :
    (lo : ℕ) (r : Range) (rs : List Range)
    → From lo (r ∷ rs)
    → (last : Range) × (get_last? (r ∷ rs) ≡ some last)
      × (last.start < last.end)
      × (covers (r ∷ rs) (last.end - 1) ≡ true)
      × (r.end ≤ last.end)
      × ((x : ℕ) → covers (r ∷ rs) x ≡ true → x < last.end)
last_lem lo r [] h = (r, refl, h.1, ground arith, omega arith, λ x e. ground arith)
last_lem lo r (s ∷ rest) h =
    let (last, e, ne, c, le, top) = last_lem (suc r.end) s rest h.2 in
    (last, e, ne, ground (arith, c), omega arith, λ x k. ground (arith, top x))

-- What `max` and `end` promise of a set; the outer `none` is a panic.
abbrev pub IsMax : RangeSet → Option ℕ → Option (Option ℕ) → Type 0
IsMax ranges bound none = ⊥
IsMax ranges bound (some none) = (ranges ≡ []) × (bound ≡ none)
IsMax ranges bound (some (some m)) =
    (bound ≡ some (m + 1)) × (covers ranges m ≡ true) × ((x : ℕ) → covers ranges x ≡ true → x ≤ m)

max_of_last :
    (rs : RangeSet) (last : Range)
    → get_last? rs ≡ some last
    → last.start < last.end
    → (end rs ≡ some last.end) × (max rs ≡ some (some (last.end - 1)))
unfolding max end
max_of_last rs last e ne = (rw (e, end), rw (e, max) (rw (le→leb 1 last.end (omega arith))))

-- `max` of a canonical set never panics: it is `None` exactly on the empty set, and else the greatest
-- value, one below `end`.
pub max-IsMax : (ranges : RangeSet) → Canonical ranges → IsMax ranges (end ranges) (max ranges)
max-IsMax [] h = unfold max end in (refl, refl)
max-IsMax (r ∷ rs) h =
    let (last, e, ne, c, le, top) = last_lem 0 r rs h in
    let (bound, greatest) = max_of_last (r ∷ rs) last e ne in
    rw (bound, greatest) (ap some (omega arith), c, λ x k. omega (arith, top x k))
