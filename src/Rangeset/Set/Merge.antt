-- ===== src/Rangeset/Set/Merge.antt =====
-- rangeset/src/set.rs, `sort_merge` and the constructors that use it.
use tlsn_utils.Base.{
  ℕ, suc, ◌≤◌, ◌<◌, ◌≡◌, true, false, ◌||◌, List, [], ◌∷◌, arith, leb, if◌then◌else◌, refl, ◌∙◌,
  All, length, leb→le, Bool-cases, inl, inr,
}
use tlsn_utils.Rangeset.Range.{Range, contains}
use tlsn_utils.Rangeset.Ranges.{covers, From, Canonical}
use tlsn_utils.Rangeset.Set.{
  lex_le, insert, sort_unstable, extend, merge_from, merge_sorted, sort_merge, remove_empty,
  new_from_iter,
}

abbrev pub NonEmpty : Range → Type 0
NonEmpty r = r.start < r.end

-- Non-empty ranges in the order of their starts, from `lo` on.
abbrev SortedFrom : ℕ → List Range → Type 0
SortedFrom lo [] = Unit
SortedFrom lo (r ∷ rs) = (lo ≤ r.start) × (r.start < r.end) × SortedFrom r.start rs

insert-SortedFrom :
    (r : Range) (rs : List Range) (lo : ℕ)
    → lo ≤ r.start
    → NonEmpty r
    → SortedFrom lo rs
    → SortedFrom lo (insert r rs)
unfolding insert
insert-SortedFrom r [] lo h k l = (h, k, tt)
insert-SortedFrom r (s ∷ rest) lo h k l = elim (Bool-cases (lex_le r s)) [
  | inl e ↦ rw e (ground arith)
  | inr e ↦ rw e (l.0, l.1, insert-SortedFrom r rest s.start (ground arith) k l.2)
]

sort_unstable-SortedFrom : (rs : List Range) → All NonEmpty rs → SortedFrom 0 (sort_unstable rs)
unfolding sort_unstable
sort_unstable-SortedFrom [] h = tt
sort_unstable-SortedFrom (r ∷ rs) h =
    insert-SortedFrom r (sort_unstable rs) 0 (omega arith) h.0 (sort_unstable-SortedFrom rs h.1)

covers-insert :
    (r : Range) (rs : List Range) (x : ℕ) → covers (insert r rs) x ≡ (contains r x || covers rs x)
unfolding insert
covers-insert r [] x = ground arith
covers-insert r (s ∷ rest) x = elim (Bool-cases (lex_le r s)) [
  | inl e ↦ rw e
  | inr e ↦ rw (e, covers-insert r rest x) (ground arith)
]

covers-sort_unstable : (rs : List Range) (x : ℕ) → covers (sort_unstable rs) x ≡ covers rs x
unfolding sort_unstable
covers-sort_unstable [] x = ground arith
covers-sort_unstable (r ∷ rs) x =
    ground (arith, covers-insert r (sort_unstable rs) x, covers-sort_unstable rs x)

merge_from-extend :
    (c d : Range) (rest : List Range)
    → leb d.start c.end ≡ true
    → merge_from c (d ∷ rest) ≡ merge_from (extend c d) rest
unfolding merge_from
merge_from-extend c d rest e = rw (e, merge_from)

merge_from_keep :
    (c d : Range) (rest : List Range)
    → leb d.start c.end ≡ false
    → merge_from c (d ∷ rest) ≡ c ∷ merge_from d rest
unfolding merge_from
merge_from_keep c d rest e = rw (e, merge_from)

SortedFrom-mono : (lo lo' : ℕ) (rs : List Range) → lo' ≤ lo → SortedFrom lo rs → SortedFrom lo' rs
SortedFrom-mono lo lo' [] h k = tt
SortedFrom-mono lo lo' (r ∷ rs) h k = (omega arith, k.1, k.2)

extend_lem : (c d : Range) → NonEmpty c → ((extend c d).start ≡ c.start) × NonEmpty (extend c d)
extend_lem c d h = ground arith

-- From a current range and sorted candidates the merge loop makes a canonical list.
merge_from-From :
    (c : Range) (rs : List Range) (lo : ℕ)
    → lo ≤ c.start
    → NonEmpty c
    → SortedFrom c.start rs
    → From lo (merge_from c rs)
unfolding merge_from
merge_from-From c [] lo h k l = (h, k, tt)
merge_from-From c (d ∷ rest) lo h k l = elim (Bool-cases (leb d.start c.end)) [
  | inl e ↦ rw (merge_from-extend c d rest e) (
      let (same, ne) = extend_lem c d k in
      merge_from-From (extend c d) rest lo (omega arith) ne
        (SortedFrom-mono d.start _ rest (omega arith) l.2))
  | inr e ↦
      rw (merge_from_keep c d rest e)
        (h, k, merge_from-From d rest (suc c.end) (ground arith) l.1 l.2)
]

covers-extend :
    (c d : Range) (x : ℕ)
    → c.start ≤ d.start
    → d.start ≤ c.end
    → contains (extend c d) x ≡ (contains c x || contains d x)
covers-extend c d x h k = ground arith

covers-merge_from :
    (c : Range) (rs : List Range) (x : ℕ)
    → NonEmpty c
    → SortedFrom c.start rs
    → covers (merge_from c rs) x ≡ (contains c x || covers rs x)
covers-merge_from c [] x k l = unfold merge_from in refl
covers-merge_from c (d ∷ rest) x k l = elim (Bool-cases (leb d.start c.end)) [
  | inl e ↦
      let (same, ne) = extend_lem c d k in
      rw
        (
          merge_from-extend c d rest e,
          covers-merge_from (extend c d) rest x ne
              (SortedFrom-mono d.start _ rest (omega arith) l.2),
          covers-extend c d x l.0 (leb→le _ _ e),
        )
        (ground arith)
  | inr e ↦ rw (merge_from_keep c d rest e, covers-merge_from d rest x l.1 l.2)
]

remove_empty-NonEmpty : (rs : List Range) → All NonEmpty (remove_empty rs)
unfolding remove_empty
remove_empty-NonEmpty [] = tt
remove_empty-NonEmpty (r ∷ rs) = ground (arith, remove_empty-NonEmpty rs)

covers-remove_empty : (rs : List Range) (x : ℕ) → covers (remove_empty rs) x ≡ covers rs x
unfolding remove_empty
covers-remove_empty [] x = refl
covers-remove_empty (r ∷ rs) x = ground (arith, covers-remove_empty rs x)

merge_sorted-Canonical : (rs : List Range) → SortedFrom 0 rs → Canonical (merge_sorted rs)
merge_sorted-Canonical [] h = tt
merge_sorted-Canonical (r ∷ rs) h = merge_from-From r rs 0 (omega arith) h.1 h.2

covers-merge_sorted :
    (rs : List Range) (x : ℕ) → SortedFrom 0 rs → covers (merge_sorted rs) x ≡ covers rs x
covers-merge_sorted [] x h = refl
covers-merge_sorted (r ∷ rs) x h = covers-merge_from r rs x h.1 h.2

le_one_false : (n : ℕ) → leb (suc (suc n)) 1 ≡ false
le_one_false n = ground arith

-- `sort_merge` makes any list of non-empty ranges canonical.
pub sort_merge-Canonical : (rs : List Range) → All NonEmpty rs → Canonical (sort_merge rs)
unfolding sort_merge
sort_merge-Canonical [] h = tt
sort_merge-Canonical (r ∷ []) h = ground arith
sort_merge-Canonical (r ∷ s ∷ rest) h =
    rw (le_one_false (length rest), if◌then◌else◌)
      (merge_sorted-Canonical (sort_unstable (r ∷ s ∷ rest))
        (sort_unstable-SortedFrom (r ∷ s ∷ rest) h))

-- `sort_merge` keeps the values.
pub covers-sort_merge :
    (rs : List Range) (x : ℕ) → All NonEmpty rs → covers (sort_merge rs) x ≡ covers rs x
unfolding sort_merge
covers-sort_merge [] x h = refl
covers-sort_merge (r ∷ []) x h = refl
covers-sort_merge (r ∷ s ∷ rest) x h =
    rw (le_one_false (length rest), if◌then◌else◌)
      (covers-merge_sorted (sort_unstable (r ∷ s ∷ rest)) x
          (sort_unstable-SortedFrom (r ∷ s ∷ rest) h)
        ∙ covers-sort_unstable (r ∷ s ∷ rest) x)

-- `new_from_iter`, and with it `new_from_slice` and every `From` and `FromIterator` of a list of
-- ranges, makes a canonical set of exactly the values of the given ranges, which may be empty,
-- reversed, overlapping and in any order.
pub new_from_iter_lem :
    (rs : List Range)
    → Canonical (new_from_iter rs) × ((x : ℕ) → covers (new_from_iter rs) x ≡ covers rs x)
unfolding new_from_iter
new_from_iter_lem rs = (
  sort_merge-Canonical (remove_empty rs) (remove_empty-NonEmpty rs),
  λ x. covers-sort_merge (remove_empty rs) x (remove_empty-NonEmpty rs) ∙ covers-remove_empty rs x,
)
