-- ===== src/Rangeset/Set/Iter.antt =====
-- rangeset/src/set.rs: the iterators over the ranges of a set. `RangeIter` borrows the slice of the
-- ranges that are left; `IntoRangeIter` owns the vector and keeps a position in it.
use tlsn_utils.Base.{
  ℕ, ◌+◌, Bool, Option, none, some, List, ltb, head?, tail, drop, get_elem?, then_some,
}
use tlsn_utils.Rangeset.Range.{Range, contains}
use tlsn_utils.Rangeset.Set.{RangeSet, partition_point}

pub record RangeIter : Type 0 where
  pub iter : List Range

unfoldable pub iter : RangeSet → RangeIter
iter ranges = record { iter = ranges }

unfoldable pub range_next : RangeIter → Option Range × RangeIter
range_next s = (head? s.iter, record { iter = tail s.iter })

unfoldable pub range_seek_end_ge : ℕ → RangeIter → Option Range × RangeIter
unfolding range_next
range_seek_end_ge n s =
    let pos = partition_point (λ r. ltb r.end n) s.iter in
    range_next (record { iter = drop pos s.iter })

-- `RangeIterator::seek`, and `RangeSet::contains`, which is `seek` on a new iterator.
unfoldable pub seek : ℕ → RangeIter → Option Range × RangeIter
unfolding range_seek_end_ge
seek n s =
    let (item, s') = range_seek_end_ge n s in
    (elim item [ none ↦ none | some range ↦ then_some (contains range n) range ], s')

unfoldable pub set_contains : RangeSet → ℕ → Bool
unfolding iter seek
set_contains ranges value = elim ((seek value (iter ranges)).0) [
  | none ↦ Bool.false
  | some r ↦ Bool.true
]

pub record IntoRangeIter : Type 0 where
  pub pos : ℕ
  pub ranges : List Range

unfoldable pub into_range_iter : RangeSet → IntoRangeIter
into_range_iter ranges = record { pos = 0; ranges = ranges }

unfoldable pub into_next : IntoRangeIter → Option Range × IntoRangeIter
into_next s = (get_elem? s.ranges s.pos, record s { pos = s.pos + 1 })

unfoldable pub into_seek_end_ge : ℕ → IntoRangeIter → Option Range × IntoRangeIter
unfolding into_next
into_seek_end_ge n s = into_next (record s { pos = partition_point (λ r. ltb r.end n) s.ranges })
