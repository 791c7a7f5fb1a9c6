-- ===== src/Rangeset/Set/Remove.antt =====
-- rangeset/src/set.rs, `remove_range` and `difference_mut`: the search for the window of ranges and
-- the splice against a range-by-range difference.
use tlsn_utils.Base.{
  ℕ, zero, suc, ◌-◌, ◌≤◌, ◌<◌, ◌≡◌, ◌∙◌, sym, ap, refl, true, false, ◌||◌, Option, none, some, List,
  [], ◌∷◌, ◌++◌, arith, ltb, leb, drop, get_elem?, if◌then◌else◌, then_some, Bool-cases, inl, inr,
}
use tlsn_utils.Rangeset.Range.{Range, ◌until◌}
use tlsn_utils.Rangeset.Ranges.{From}
use tlsn_utils.Rangeset.Set.{
  partition_point, window_end, to_list, splice, splice_window, remove_from,
}
use mathlib.Core.List.{append_assoc}

not_leb : {a b : ℕ} → a < b → leb b a ≡ false
not_leb h = ground arith

pred_suc : (n : ℕ) → suc n - 1 ≡ n
pred_suc n = omega arith

drop_get :
    (xs : List Range) (i : ℕ) {x : Range}
    → get_elem? xs i ≡ some x
    → drop i xs ≡ x ∷ drop (suc i) xs
drop_get [] i e = cc
drop_get (y ∷ ys) zero e = ground (arith, e)
drop_get (y ∷ ys) (suc i) e = drop_get ys i e

get_pred :
    (r : Range) (ranges : List Range) (hi n : ℕ)
    → hi ≡ suc n
    → get_elem? (r ∷ ranges) (suc hi - 1) ≡ get_elem? ranges (hi - 1)
get_pred r ranges hi n e =
    ap (get_elem? (r ∷ ranges)) (let e' : suc hi - 1 ≡ suc n = omega arith in e')
    ∙ ap (get_elem? ranges) (let e' : n ≡ hi - 1 = omega arith in e')

module _ (range : Range) where
  abbrev pub head_part : Range → List Range
  head_part r = to_list (then_some (ltb r.start range.start) (r.start until range.start))

  abbrev pub tail_part : Range → List Range
  tail_part r = to_list (then_some (ltb range.end r.end) (range.end until r.end))

  -- One range of the set less `range`.
  abbrev pub carve : Range → List Range
  carve r =
      if leb r.end range.start || leb range.end r.start then r ∷ [] else head_part r ++ tail_part r

  unfoldable pub carve_all : List Range → List Range
  carve_all [] = []
  carve_all (r ∷ rs) = carve r ++ carve_all rs

  carve_all_after : (lo : ℕ) (rs : List Range) → range.end ≤ lo → From lo rs → carve_all rs ≡ rs
  unfolding carve_all
  carve_all_after lo [] h k = refl
  carve_all_after lo (r ∷ rs) h k = ground (arith, carve_all_after (suc r.end) rs)

  window_end_shift :
      (e : ℕ) (rs : List Range) (hi : ℕ) → window_end e rs (suc hi) ≡ suc (window_end e rs hi)
  unfolding window_end
  window_end_shift e [] hi = refl
  window_end_shift e (r ∷ rs) hi = ground (arith, window_end_shift e rs (suc hi))

  -- The end of the window from `prev` on: its last range, and the ranges behind the window.
  window_tail :
      (prev : Range) (rest : List Range)
      → range.start < range.end
      → range.start < prev.end
      → From (suc prev.end) rest
      → (last : Range) × (get_elem? (prev ∷ rest) (window_end range.end rest 0) ≡ some last)
        × (tail_part last ++ drop (window_end range.end rest 0) rest
            ≡ tail_part prev ++ carve_all rest)
  unfolding window_end carve_all
  window_tail prev [] h k l = (prev, refl, refl)
  window_tail prev (r ∷ rest) h k l = elim (Bool-cases (ltb r.start range.end)) [
    | inl e ↦
        let (last, at, parts) = window_tail r rest h (omega arith) l.2 in
        (
          last,
          ground (arith, window_end_shift range.end rest 0),
          ground (arith, window_end_shift range.end rest 0),
        )
    | inr e ↦ (prev, ground arith, ground (arith, carve_all_after (suc r.end) rest))
  ]

  window_end_cons :
      (first : Range) (rest : List Range) (hi : ℕ)
      → first.start < range.end
      → window_end range.end (first ∷ rest) hi ≡ suc (window_end range.end rest hi)
  unfolding window_end
  window_end_cons first rest hi h = ground (arith, window_end_shift range.end rest hi)

  splice_window_head :
      (first : Range) (rest : List Range)
      → range.start < range.end
      → range.start < first.end
      → first.start < range.end
      → From (suc first.end) rest
      → splice_window (first ∷ rest) range 0 first
        ≡ some (head_part first ++ (tail_part first ++ carve_all rest))
  unfolding splice_window
  splice_window_head first rest h k m l =
      let (last, at, parts) = window_tail first rest h k l in
      let hi = window_end range.end (first ∷ rest) 0 in
      let more : hi ≡ suc (window_end range.end rest 0) = window_end_cons first rest 0 m in
      let at' : get_elem? (first ∷ rest) (hi - 1) ≡ some last =
        rw (more, pred_suc (window_end range.end rest 0)) at in
      let behind : drop hi (first ∷ rest) ≡ drop (window_end range.end rest 0) rest =
        ap (λ n. drop n (first ∷ rest)) more in
      rw (at', splice_window)
        (ap (λ t. some (head_part first ++ t)) (ap (λ d. tail_part last ++ d) behind ∙ parts))

  carve_inside :
      (r : Range) → range.start < r.end → r.start < range.end → carve r ≡ head_part r ++ tail_part r
  carve_inside r h k = rw (not_leb h, not_leb k)

  remove_from_splice :
      (first : Range) (ranges : List Range) (lo : ℕ)
      → get_elem? ranges lo ≡ some first
      → leb range.end first.start ≡ false
      → remove_from ranges range lo ≡ splice_window ranges range lo first
  unfolding remove_from
  remove_from_splice first ranges lo h e = rw (h, remove_from) (rw e)

  partition_point_skip :
      (r : Range) (rs : List Range)
      → leb r.end range.start ≡ true
      → partition_point (λ r. leb r.end range.start) (r ∷ rs)
        ≡ suc (partition_point (λ r. leb r.end range.start) rs)
  unfolding partition_point
  partition_point_skip r rs e = rw e

  partition_point_stop :
      (r : Range) (rs : List Range)
      → leb r.end range.start ≡ false
      → partition_point (λ r. leb r.end range.start) (r ∷ rs) ≡ 0
  unfolding partition_point
  partition_point_stop r rs e = rw e

  -- The window starts at the first range.
  remove_from_head :
      (first : Range) (rest : List Range)
      → range.start < range.end
      → range.start < first.end
      → first.start < first.end
      → From (suc first.end) rest
      → remove_from (first ∷ rest) range 0 ≡ some (carve_all (first ∷ rest))
  unfolding carve_all
  remove_from_head first rest h k n l = elim (Bool-cases (leb range.end first.start)) [
    | inl e ↦ unfold remove_from in ground (arith, carve_all_after (suc first.end) rest)
    | inr e ↦
        remove_from_splice first (first ∷ rest) 0 refl e
        ∙ splice_window_head first rest h k (ground arith) l
        ∙ ap some (
            sym (append_assoc (head_part first) (tail_part first) (carve_all rest))
            ∙ ap (λ t. t ++ carve_all rest) (sym (carve_inside first k (ground arith))))
  ]

  abbrev cons_to : Range → Option (List Range) → Option (List Range)
  cons_to r none = none
  cons_to r (some rs) = some (r ∷ rs)

  window_end_pos :
      (ranges : List Range) (lo : ℕ) (first : Range)
      → get_elem? ranges lo ≡ some first
      → first.start < range.end
      → (k : ℕ) × (window_end range.end (drop lo ranges) lo ≡ suc k)
  window_end_pos ranges lo first h k = (
    window_end range.end (drop (suc lo) ranges) lo,
    rw (drop_get ranges lo h) (window_end_cons first (drop (suc lo) ranges) lo k),
  )

  splice-cons :
      (r : Range) (ranges : List Range) (lo hi : ℕ) (first : Range) (o : Option Range)
      → splice (r ∷ ranges) range (suc lo) (suc hi) first o
        ≡ cons_to r (splice ranges range lo hi first o)
  splice-cons r ranges lo hi first none = refl
  splice-cons r ranges lo hi first (some last) = refl

  splice_window_skip :
      (r : Range) (ranges : List Range) (lo : ℕ) (first : Range)
      → get_elem? ranges lo ≡ some first
      → first.start < range.end
      → splice_window (r ∷ ranges) range (suc lo) first
        ≡ cons_to r (splice_window ranges range lo first)
  unfolding splice_window
  splice_window_skip r ranges lo first h k =
      let (n, e) = window_end_pos ranges lo first h k in
      let hi = window_end range.end (drop lo ranges) lo in
      let read : get_elem? (r ∷ ranges) (suc hi - 1) ≡ get_elem? ranges (hi - 1) =
        get_pred r ranges hi n e in
      ap (λ w. splice (r ∷ ranges) range (suc lo) w first (get_elem? (r ∷ ranges) (w - 1)))
        (window_end_shift range.end (drop lo ranges) lo)
      ∙ ap (λ o. splice (r ∷ ranges) range (suc lo) (suc hi) first o) read
      ∙ splice-cons r ranges lo hi first (get_elem? ranges (hi - 1))

  remove_from_skip :
      (r : Range) (ranges : List Range) (lo : ℕ)
      → remove_from (r ∷ ranges) range (suc lo) ≡ cons_to r (remove_from ranges range lo)
  remove_from_skip r ranges lo = go (get_elem? ranges lo) refl
    where
      go :
          (o : Option Range)
          → get_elem? ranges lo ≡ o
          → remove_from (r ∷ ranges) range (suc lo) ≡ cons_to r (remove_from ranges range lo)
      go none e = unfold remove_from in rw (e, remove_from)
      go (some first) e = elim (Bool-cases (leb range.end first.start)) [
        | inl b ↦ unfold remove_from in rw (e, remove_from) (rw b)
        | inr b ↦
            remove_from_splice first (r ∷ ranges) (suc lo) e b
            ∙ splice_window_skip r ranges lo first e (ground arith)
            ∙ ap (cons_to r) (sym (remove_from_splice first ranges lo e b))
      ]

  -- On a canonical set `remove_range` never panics, and is the range-by-range difference.
  pub remove_from-carve_all :
      (lo : ℕ) (rs : List Range)
      → range.start < range.end
      → From lo rs
      → remove_from rs range (partition_point (λ r. leb r.end range.start) rs) ≡ some (carve_all rs)
  remove_from-carve_all lo [] h k = unfold remove_from partition_point carve_all in refl
  remove_from-carve_all lo (r ∷ rs) h k = elim (Bool-cases (leb r.end range.start)) [
    | inl e ↦ rw (partition_point_skip r rs e) (
        remove_from_skip r rs _
        ∙ rw (remove_from-carve_all (suc r.end) rs h k.2) (unfold carve_all in rw e))
    | inr e ↦ rw (partition_point_stop r rs e) (remove_from_head r rs h (ground arith) k.1 k.2)
  ]
