-- ===== src/Rangeset/Set/Split.antt =====
-- rangeset/src/set.rs, `split_off`.
use tlsn_utils.Base.{
  ℕ, zero, suc, ◌-◌, ◌<◌, ◌≡◌, ◌∙◌, sym, ap, refl, true, false, ◌&&◌, some, List, [], ◌∷◌, arith,
  ltb, leb, if◌then◌else◌, Bool-cases, inl, inr, take, drop, set, get_elem?,
}
use tlsn_utils.Rangeset.Range.{Range, ◌until◌}
use tlsn_utils.Rangeset.Ranges.{covers, From, Canonical}
use tlsn_utils.Rangeset.Ranges.Laws.{From-mono, covers_below}
use tlsn_utils.Rangeset.Set.{RangeSet, partition_point, split_at, split_off}

pred_suc : (n : ℕ) → suc n - 1 ≡ n
pred_suc n = omega arith

module _ (at : ℕ) where
  -- The two halves, by recursion on the ranges.
  low : List Range → List Range
  low [] = []
  low (r ∷ rs) =
      if ltb r.start at
      then (if ltb at r.end then record r { end = at } ∷ [] else r ∷ low rs)
      else []

  high : List Range → List Range
  high [] = []
  high (r ∷ rs) =
      if ltb r.start at then (if ltb at r.end then (at until r.end) ∷ rs else high rs) else r ∷ rs

  idx : List Range → ℕ
  idx rs = partition_point (λ r. ltb r.start at) rs

  idx_zero : (rs : List Range) → idx rs ≡ 0 → (low rs ≡ []) × (high rs ≡ rs)
  unfolding idx partition_point low high
  idx_zero [] e = (refl, refl)
  idx_zero (r ∷ rs) e = ground arith

  idx-suc : (lo : ℕ) (rs : List Range) (i : ℕ) → From lo rs → idx rs ≡ suc i → lo < at
  unfolding idx partition_point
  idx-suc lo [] i h e = absurd (omega arith)
  idx-suc lo (r ∷ rs) i h e = ground arith

  abbrev cons_left : Range → RangeSet × RangeSet → RangeSet × RangeSet
  cons_left r (a, b) = (r ∷ a, b)

  -- Past the empty index, `split_at` as its two branches.
  split_at-suc :
      (rs : List Range) (i : ℕ) (prev : Range)
      → split_at rs at (suc i) (some prev) ≡ (
          if ltb at prev.end
          then (
            take (suc i) (set rs i (record prev { end = at })),
            (at until prev.end) ∷ drop (suc i) rs,
          )
          else (take (suc i) rs, drop (suc i) rs))
  split_at-suc rs i prev = rw (pred_suc i) (ground arith)

  split_at-cons :
      (r : Range) (rs : List Range) (i : ℕ) (prev : Range)
      → split_at (r ∷ rs) at (suc (suc i)) (some prev)
        ≡ cons_left r (split_at rs at (suc i) (some prev))
  split_at-cons r rs i prev =
      rw (split_at-suc (r ∷ rs) (suc i) prev, split_at-suc rs i prev)
        (elim (Bool-cases (ltb at prev.end)) [ inl e ↦ rw e | inr e ↦ rw e ])

  idx_cons : (r : Range) (rs : List Range) → ltb r.start at ≡ true → idx (r ∷ rs) ≡ suc (idx rs)
  unfolding idx partition_point
  idx_cons r rs h = rw h

  get_idx :
      (rs : List Range) (i : ℕ) → idx rs ≡ suc i → (prev : Range) × (get_elem? rs i ≡ some prev)
  unfolding idx partition_point
  get_idx [] i e = absurd (omega arith)
  get_idx (r ∷ rs) zero e = (r, refl)
  get_idx (r ∷ rs) (suc i) e = get_idx rs i (ground arith)

  split_off_at :
      (rs : List Range) (i : ℕ) (prev : Range)
      → idx rs ≡ suc i
      → get_elem? rs i ≡ some prev
      → split_off rs at ≡ split_at rs at (suc i) (some prev)
  unfolding split_off idx
  split_off_at rs i prev e h =
      ap (λ n. split_at rs at n (get_elem? rs (n - 1))) e
      ∙ ap (λ n. split_at rs at (suc i) (get_elem? rs n)) (pred_suc i)
      ∙ ap (split_at rs at (suc i)) h

  split_off_skip :
      (r : Range) (rs : List Range) (i : ℕ)
      → ltb r.start at ≡ true
      → idx rs ≡ suc i
      → split_off (r ∷ rs) at ≡ cons_left r (split_off rs at)
  split_off_skip r rs i h e =
      let (prev, g) = get_idx rs i e in
      split_off_at (r ∷ rs) (suc i) prev (idx_cons r rs h ∙ ap suc e) g
      ∙ split_at-cons r rs i prev
      ∙ ap (cons_left r) (sym (split_off_at rs i prev e g))

  split_off_last :
      (r : Range) (rs : List Range)
      → ltb r.start at ≡ true
      → idx rs ≡ 0
      → split_off (r ∷ rs) at ≡ (low (r ∷ rs), high (r ∷ rs))
  split_off_last r rs h e =
      let (l, k) = idx_zero rs e in
      split_off_at (r ∷ rs) 0 r (idx_cons r rs h ∙ ap suc e) refl
      ∙ split_at-suc (r ∷ rs) 0 r
      ∙ unfold low high in ground arith

  split_off_none :
      (r : Range) (rs : List Range)
      → ltb r.start at ≡ false
      → split_off (r ∷ rs) at ≡ (low (r ∷ rs), high (r ∷ rs))
  unfolding split_off partition_point low high
  split_off_none r rs h = rw (h, split_off)

  split_off-halves : (lo : ℕ) (rs : List Range) → From lo rs → split_off rs at ≡ (low rs, high rs)
  split_off-halves lo [] h = unfold split_off low high partition_point in refl
  split_off-halves lo (r ∷ rs) h = elim (Bool-cases (ltb r.start at)) [
    | inr e ↦ split_off_none r rs e
    | inl e ↦ go (idx rs) refl e (split_off-halves (suc r.end) rs h.2)
  ]
    where
      go :
          (n : ℕ)
          → idx rs ≡ n
          → ltb r.start at ≡ true
          → split_off rs at ≡ (low rs, high rs)
          → split_off (r ∷ rs) at ≡ (low (r ∷ rs), high (r ∷ rs))
      go zero i e rest = split_off_last r rs e i
      go (suc n) i e rest =
          let past : suc r.end < at = idx-suc (suc r.end) rs n h.2 i in
          split_off_skip r rs n e i ∙ ap (cons_left r) rest ∙ unfold low high in ground arith

low_lem :
    (at lo : ℕ) (rs : List Range) (x : ℕ)
    → From lo rs
    → From lo (low at rs) × (covers (low at rs) x ≡ (covers rs x && ltb x at))
unfolding low
low_lem at lo [] x h = (tt, refl)
low_lem at lo (r ∷ rs) x h =
    ground (arith, low_lem at (suc r.end) rs x, covers_below (suc r.end) rs x h.2)

high_lem :
    (at lo : ℕ) (rs : List Range) (x : ℕ)
    → From lo rs
    → From lo (high at rs) × (covers (high at rs) x ≡ (covers rs x && leb at x))
unfolding high
high_lem at lo [] x h = (tt, refl)
high_lem at lo (r ∷ rs) x h = ground (
  arith,
  high_lem at (suc r.end) rs x,
  covers_below (suc r.end) rs x h.2,
  From-mono (suc r.end) lo (high at rs),
)

-- `split_off` of a canonical set leaves a canonical set of exactly the values below `at`, and
-- returns a canonical set of exactly the others.
pub split_off_lem :
    (ranges : RangeSet) (at x : ℕ)
    → Canonical ranges
    → Canonical (split_off ranges at).0
      × Canonical (split_off ranges at).1
      × (covers (split_off ranges at).0 x ≡ (covers ranges x && ltb x at))
      × (covers (split_off ranges at).1 x ≡ (covers ranges x && leb at x))
split_off_lem ranges at x h =
    let (l, lv) = low_lem at 0 ranges x h in
    let (r, rv) = high_lem at 0 ranges x h in rw (split_off-halves at 0 ranges h) (l, r, lv, rv)
