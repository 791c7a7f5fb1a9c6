-- ===== src/Rangeset/Set/Len.antt =====
-- rangeset/src/set.rs, `len`, and the conversions between a set and one range.
use tlsn_utils.Base.{
  ℕ, zero, suc, ◌+◌, ◌-◌, ◌<◌, ◌≡◌, Bool, true, false, ◌||◌, some, List, [], ◌∷◌, arith,
  if◌then◌else◌, refl, sym, min, ◌↔◌,
}
use tlsn_utils.Rangeset.Range.{Range, contains, is_empty}
use tlsn_utils.Rangeset.Ranges.{covers, From, Canonical}
use tlsn_utils.Rangeset.Ranges.Laws.{covers_below}
use tlsn_utils.Rangeset.Set.{RangeSet, len, from_range, try_into_range}

-- The number of values below `n` that pass a test.
abbrev pub count_below : (ℕ → Bool) → ℕ → ℕ
count_below p zero = 0
count_below p (suc n) = count_below p n + (if p n then 1 else 0)

count_range : (r : Range) (n : ℕ) → count_below (contains r) n ≡ min n r.end - min n r.start
count_range r zero = omega arith
count_range r (suc n) = ground (arith, count_range r n)

count_or :
    (p q : ℕ → Bool) (n : ℕ)
    → ((x : ℕ) → p x ≡ true → q x ≡ false)
    → count_below (λ x. p x || q x) n ≡ count_below p n + count_below q n
count_or p q zero h = refl
count_or p q (suc n) h = ground (arith, count_or p q n h, h n)

count_none : (n : ℕ) → count_below (covers []) n ≡ 0
count_none zero = refl
count_none (suc n) = ground (arith, count_none n)

len-From :
    (lo n : ℕ) (rs : List Range)
    → From lo rs
    → ((x : ℕ) → covers rs x ≡ true → x < n)
    → len rs ≡ count_below (covers rs) n
unfolding len
len-From lo n [] h k = sym (count_none n)
len-From lo n (r ∷ rs) h k =
    let ih = len-From (suc r.end) n rs h.2 (λ x e. k x (ground arith)) in
    let top : r.end - 1 < n = k (r.end - 1) (ground arith) in
    let apart =
      count_or (contains r) (covers rs) n
        (λ x e. covers_below (suc r.end) rs x h.2 (ground arith)) in
    omega (arith, ih, top, apart, count_range r n)

-- `len` of a canonical set is the number of its values: the count of the values below `n` that are
-- in the set, for any `n` past all of them.
pub len-count_below :
    (ranges : RangeSet) (n : ℕ)
    → Canonical ranges
    → ((x : ℕ) → covers ranges x ≡ true → x < n)
    → len ranges ≡ count_below (covers ranges) n
len-count_below ranges n h k = len-From 0 n ranges h k

-- A range made a set is canonical and has its values, and `try_from` of a canonical set gives the range
-- back exactly if the set is made from it and it is not empty.
pub from_range_lem :
    (r : Range) (s : RangeSet)
    → Canonical s
    → Canonical (from_range r)
      × ((x : ℕ) → covers (from_range r) x ≡ contains r x)
      × ((try_into_range s ≡ some r) ↔ ((s ≡ from_range r) × (is_empty r ≡ false)))
unfolding from_range try_into_range
from_range_lem r s h =
    (ground arith, λ x. ground arith, (to s h, λ p. rw (p.0) (ground (arith, p.1))))
  where
    to :
        (s : RangeSet)
        → Canonical s
        → try_into_range s ≡ some r
        → (s ≡ from_range r) × (is_empty r ≡ false)
    to [] h e = cc
    to (a ∷ []) h e = ground arith
    to (a ∷ b ∷ c) h e = cc
