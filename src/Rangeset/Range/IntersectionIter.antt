-- ===== src/Rangeset/Range/IntersectionIter.antt =====
-- rangeset/src/range.rs, `RangeIntersectionIter`: the intersection of two ranges, at most one range.
use tlsn_utils.Base.{ℕ, Option, none, some, ltb, leb, max, min, then_some}
use tlsn_utils.Rangeset.Range.{Range, ◌until◌}

pub record RangeIntersectionIter : Type 0 where
  pub intersection : Option Range

unfoldable pub new : Range → Range → RangeIntersectionIter
new a b =
    let start = max a.start b.start in
    let end = min a.end b.end in
    record { intersection = then_some (ltb start end) (start until end) }

unfoldable pub next : RangeIntersectionIter → Option Range × RangeIntersectionIter
next s = (s.intersection, record { intersection = none })

unfoldable pub seek_end_ge : ℕ → RangeIntersectionIter → Option Range × RangeIntersectionIter
unfolding next
seek_end_ge n s =
    let (item, s') = next s in
    (elim item [ none ↦ none | some range ↦ then_some (leb n range.end) range ], s')
