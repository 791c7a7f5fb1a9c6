-- ===== src/Rangeset/Range/Once.antt =====
-- rangeset/src/range.rs, `Once`: the iterator over a single range.
use tlsn_utils.Base.{ℕ, Option, none, some, ltb, leb, then_some}
use tlsn_utils.Rangeset.Range.{Range}

pub record Once : Type 0 where
  pub range : Option Range

unfoldable pub new : Range → Once
new range = record { range = then_some (ltb range.start range.end) range }

unfoldable pub next : Once → Option Range × Once
next s = (s.range, record { range = none })

unfoldable pub seek_end_ge : ℕ → Once → Option Range × Once
seek_end_ge n s = (
  elim (s.range) [ none ↦ none | some range ↦ then_some (leb n range.end) range ],
  record { range = none },
)
