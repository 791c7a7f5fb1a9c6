-- ===== src/Rangeset/Range/DiffIter.antt =====
-- rangeset/src/range.rs, `RangeDiffIter`: the difference of two ranges, at most two ranges.
use tlsn_utils.Base.{ℕ, not, Option, none, some, ltb, leb, if◌then◌else◌, then_some}
use tlsn_utils.Rangeset.Range.{Range, ◌until◌, is_empty, is_disjoint}

pub record RangeDiffIter : Type 0 where
  pub this : Option Range
  pub other : Range

unfoldable pub new : Range → Range → RangeDiffIter
new this other = record {
  this = then_some (not (is_empty this)) this;
  other = if ltb other.end other.start then other.start until other.start else other;
}

-- `next`, once `self.this.take()` has given `this`
unfoldable pub next_taken : Range → Range → Option Range × RangeDiffIter
unfolding is_disjoint
next_taken this other =
    if is_disjoint this other
    then (some this, record { this = none; other = other })
    else if ltb this.start other.start
    then (
      some (this.start until other.start),
      if ltb other.end this.end
          then record {
            this = some (other.end until this.end);
            other = other.start until other.start;
          }
          else record { this = none; other = other },
    )
    else if ltb other.end this.end
    then (some (other.end until this.end), record { this = none; other = other })
    else (none, record { this = none; other = other })

unfoldable pub next : RangeDiffIter → Option Range × RangeDiffIter
unfolding next_taken
next s = elim (s.this) [ none ↦ (none, s) | some this ↦ next_taken this s.other ]

-- The remainder in `self.this`, taken if its end is at `n` or past it.
abbrev take_end_ge : ℕ → Option Range → Option Range
take_end_ge n none = none
take_end_ge n (some r) = then_some (leb n r.end) r

unfoldable pub seek_end_ge : ℕ → RangeDiffIter → Option Range × RangeDiffIter
unfolding next
seek_end_ge n s =
    let (item, s') = next s in
    elim item [
      | none ↦ (none, s')
      | some range ↦
          if leb n range.end
          then (some range, s')
          else (take_end_ge n s'.this, record s' { this = none })
    ]
