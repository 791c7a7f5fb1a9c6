-- ===== src/Rangeset/Range/UnionIter.antt =====
-- rangeset/src/range.rs, `RangeUnionIter`: the union of two ranges, at most two ranges.
use tlsn_utils.Base.{ℕ, Option, none, some, ltb, leb, max, if◌then◌else◌, then_some}
use tlsn_utils.Rangeset.Range.{Range, ◌until◌}

pub record RangeUnionIter : Type 0 where
  pub a : Option Range
  pub b : Option Range

unfoldable pub new : Range → Range → RangeUnionIter
new a b = record { a = then_some (ltb a.start a.end) a; b = then_some (ltb b.start b.end) b }

-- The branch of `next` on two ranges, `left` the one that starts first.
abbrev merge_or_yield : Range → Range → Option Range × RangeUnionIter
merge_or_yield left right =
    if ltb left.end right.start
    then (some left, record { a = some right; b = none })
    else (some (left.start until max left.end right.end), record { a = none; b = none })

abbrev next_taken : Option Range → Option Range → Option Range × RangeUnionIter
next_taken (some a) (some b) =
    if ltb a.start b.start then merge_or_yield a b else merge_or_yield b a
next_taken (some a) none = (some a, record { a = none; b = none })
next_taken none (some b) = (some b, record { a = none; b = none })
next_taken none none = (none, record { a = none; b = none })

unfoldable pub next : RangeUnionIter → Option Range × RangeUnionIter
next s = next_taken s.a s.b

abbrev take_end_ge : ℕ → Option Range → Option Range
take_end_ge n none = none
take_end_ge n (some r) = then_some (leb n r.end) r

unfoldable pub seek_end_ge : ℕ → RangeUnionIter → Option Range × RangeUnionIter
unfolding next
seek_end_ge n s =
    let (item, s') = next s in
    elim item [
      | none ↦ (none, s')
      | some range ↦
          if leb n range.end then (some range, s') else (take_end_ge n s'.a, record s' { a = none })
    ]
