-- ===== src/Rangeset/Set.antt =====
-- rangeset/src/set.rs: the struct `RangeSet` and its methods. The struct has the one field `ranges`,
-- so a set is the list itself. A method on `&mut self` returns the new set.
pub mod Iter
pub mod Merge
pub mod Push
pub mod Remove
pub mod Difference
pub mod Split
pub mod Query
pub mod Len
pub mod Shift
use tlsn_utils.Base.{
  ℕ, zero, suc, ◌+◌, ◌-◌, ◌≡◌, Bool, true, false, not, ◌&&◌, ◌||◌, Option, none, some, List, [],
  ◌∷◌, ◌++◌, ltb, leb, ◌==◌, if◌then◌else◌, then_some, length, get_elem?, get_last?, head?, take,
  drop, set, usize_max,
}
use tlsn_utils.Rangeset.Range.{Range, ◌until◌, is_empty}

abbrev pub RangeSet : Type 0
RangeSet = List Range

-- The comparison of `sort_merge`: by the start, then by the end.
abbrev pub lex_le : Range → Range → Bool
lex_le a b = ltb a.start b.start || a.start == b.start && leb a.end b.end

-- `sort_unstable_by` of the standard library, by insertion. Ranges that compare equal are equal, so
-- the sorted order is unique.
unfoldable pub insert : Range → List Range → List Range
insert r [] = r ∷ []
insert r (s ∷ rest) = if lex_le r s then r ∷ s ∷ rest else s ∷ insert r rest

unfoldable pub sort_unstable : List Range → List Range
sort_unstable [] = []
sort_unstable (r ∷ rs) = insert r (sort_unstable rs)

-- The merge loop: `current` and the candidates `ranges[j..]`. What it writes to `ranges[..i]` is the
-- result, which `truncate` cuts there.
abbrev pub extend : Range → Range → Range
extend current candidate =
    if ltb current.end candidate.end then record current { end = candidate.end } else current

unfoldable pub merge_from : Range → List Range → List Range
merge_from current [] = current ∷ []
merge_from current (candidate ∷ rest) = elim (leb candidate.start current.end) [
  | true ↦ merge_from (extend current candidate) rest
  | false ↦ current ∷ merge_from candidate rest
]

abbrev merge_sorted : List Range → List Range
merge_sorted [] = []
merge_sorted (r ∷ rs) = merge_from r rs

unfoldable pub sort_merge : List Range → List Range
sort_merge ranges = if leb (length ranges) 1 then ranges else merge_sorted (sort_unstable ranges)

unfoldable pub remove_empty : List Range → List Range
remove_empty [] = []
remove_empty (r ∷ rs) = if ltb r.start r.end then r ∷ remove_empty rs else remove_empty rs

unfoldable pub new_from_iter : List Range → RangeSet
new_from_iter iter = sort_merge (remove_empty iter)

-- `slice::partition_point`, on a slice that the predicate partitions, as the source's do: how many
-- elements pass before the first that does not.
unfoldable pub partition_point : (Range → Bool) → List Range → ℕ
partition_point p [] = 0
partition_point p (r ∷ rs) = if p r then suc (partition_point p rs) else 0

unfoldable pub min : RangeSet → Option ℕ
min ranges = elim (head? ranges) [ none ↦ none | some r ↦ some (r.start) ]

unfoldable pub end : RangeSet → Option ℕ
end ranges = elim (get_last? ranges) [ none ↦ none | some r ↦ some (r.end) ]

-- The panic of `expect` is the outer `none`.
unfoldable pub max : RangeSet → Option (Option ℕ)
max ranges = elim (get_last? ranges) [
  | none ↦ some none
  | some r ↦ if leb 1 r.end then some (some (r.end - 1)) else none
]

unfoldable pub len : RangeSet → ℕ
len [] = 0
len (r ∷ rs) = (r.end - r.start) + len rs

-- `From<Range<T>>`, and `TryFrom<RangeSet<T>>`, which gives the set back in `Err`: `none` here.
unfoldable pub from_range : Range → RangeSet
from_range r = if is_empty r then [] else r ∷ []

unfoldable pub try_into_range : RangeSet → Option Range
try_into_range (r ∷ []) = some r
try_into_range ranges = none

abbrev set_last_end : List Range → ℕ → List Range
set_last_end [] e = []
set_last_end (r ∷ []) e = record r { end = e } ∷ []
set_last_end (r ∷ s ∷ rest) e = r ∷ set_last_end (s ∷ rest) e

-- The new set, and whether the range landed out of order.
unfoldable pub push_range : RangeSet → Range → RangeSet × Bool
push_range ranges range =
    if leb range.end range.start then (ranges, false) else elim (get_last? ranges) [
      | none ↦ (ranges ++ (range ∷ []), false)
      | some last ↦
          if range.start == last.end
          then (set_last_end ranges range.end, false)
          else if ltb range.start last.end
          then (ranges ++ (range ∷ []), true)
          else (ranges ++ (range ∷ []), false)
    ]

unfoldable pub push_all : RangeSet → List Range → Bool → RangeSet × Bool
push_all ranges [] need_sort = (ranges, need_sort)
push_all ranges (range ∷ rest) need_sort =
    let (ranges', out_of_order) = push_range ranges range in
    push_all ranges' rest (need_sort || out_of_order)

unfoldable pub union_mut : RangeSet → List Range → RangeSet
union_mut ranges other =
    let (ranges', need_sort) = push_all ranges other false in
    if need_sort then sort_merge ranges' else ranges'

-- `while hi < len && ranges[hi].start < end { hi += 1 }` on `ranges[hi..]`
unfoldable pub window_end : ℕ → List Range → ℕ → ℕ
window_end end [] hi = hi
window_end end (r ∷ rest) hi = if ltb r.start end then window_end end rest (suc hi) else hi

abbrev pub to_list : Option Range → List Range
to_list none = []
to_list (some r) = r ∷ []

-- The splice that replaces the window `lo..hi`, where `first` is `self.ranges[lo]` and the last
-- argument is the read of `self.ranges[hi - 1]`; `none` is its panic out of bounds.
abbrev pub splice : RangeSet → Range → ℕ → ℕ → Range → Option Range → Option RangeSet
splice ranges range lo hi first none = none
splice ranges range lo hi first (some last) =
    let head = then_some (ltb first.start range.start) (first.start until range.start) in
    let tail = then_some (ltb range.end last.end) (range.end until last.end) in
    some (take lo ranges ++ (to_list head ++ (to_list tail ++ drop hi ranges)))

unfoldable pub splice_window : RangeSet → Range → ℕ → Range → Option RangeSet
splice_window ranges range lo first =
    let hi = window_end range.end (drop lo ranges) lo in
    splice ranges range lo hi first (get_elem? ranges (hi - 1))

unfoldable pub remove_from : RangeSet → Range → ℕ → Option RangeSet
remove_from ranges range lo = elim (get_elem? ranges lo) [
  | none ↦ some ranges
  | some first ↦
      if leb range.end first.start then some ranges else splice_window ranges range lo first
]

unfoldable pub remove_range : RangeSet → Range → Option RangeSet
remove_range ranges range =
    if leb range.end range.start
    then some ranges
    else remove_from ranges range (partition_point (λ r. leb r.end range.start) ranges)

unfoldable pub difference_mut : RangeSet → List Range → Option RangeSet
difference_mut ranges [] = some ranges
difference_mut ranges (range ∷ rest) = elim (remove_range ranges range) [
  | none ↦ none
  | some ranges' ↦ difference_mut ranges' rest
]

-- `split_off` at the index that `partition_point` finds, with the read of `self.ranges[idx - 1]`.
abbrev pub split_at : RangeSet → ℕ → ℕ → Option Range → RangeSet × RangeSet
split_at ranges at idx none = ([], ranges)
split_at ranges at idx (some prev) =
    if ltb 0 idx
    then if ltb at prev.end
      then (
        take idx (set ranges (idx - 1) (record prev { end = at })),
        (at until prev.end) ∷ drop idx ranges,
      )
      else (take idx ranges, drop idx ranges)
    else ([], ranges)

-- The set that is left, with the values `< at`, and the set that is returned. (The read is `none`
-- only for the empty set, which the source returns early as two empty sets.)
unfoldable pub split_off : RangeSet → ℕ → RangeSet × RangeSet
split_off ranges at =
    let idx = partition_point (λ r. ltb r.start at) ranges in
    split_at ranges at idx (get_elem? ranges (idx - 1))

-- `none` is the panic on overflow, which the arithmetic of a checked build gives.
unfoldable pub shift_left : RangeSet → ℕ → Option RangeSet
shift_left [] offset = some []
shift_left (r ∷ rs) offset =
    if leb offset r.start && leb offset r.end
    then elim (shift_left rs offset) [
      | none ↦ none
      | some rs' ↦ some (((r.start - offset) until (r.end - offset)) ∷ rs')
    ]
    else none

unfoldable pub shift_right : RangeSet → ℕ → Option RangeSet
shift_right [] offset = some []
shift_right (r ∷ rs) offset =
    if leb (r.start + offset) usize_max && leb (r.end + offset) usize_max
    then elim (shift_right rs offset) [
      | none ↦ none
      | some rs' ↦ some (((r.start + offset) until (r.end + offset)) ∷ rs')
    ]
    else none
