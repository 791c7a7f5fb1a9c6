-- ===== src/Rangeset/Iter/Difference.antt =====
-- rangeset/src/iter.rs, `DifferenceIter`.
pub mod Laws
pub mod Rounds
pub mod Values
pub mod Owned
use tlsn_utils.Base.{ℕ, Option, none, some, Run, ltb, leb, if◌then◌else◌}
use tlsn_utils.Rangeset.Range.{Range, ◌until◌}
use tlsn_utils.Rangeset.Iter.{RangeIterator, take_or_else, Control, give, again, run_loop}

pub record DifferenceIter (A B : Type 0) : Type 0 where
  pub this_iter : A
  pub other_iter : B
  pub this : Option Range
  pub other : Option Range

unfoldable pub new : {A B : Type 0} → A → B → DifferenceIter A B
new a b = record { this_iter = a; other_iter = b; this = none; other = none }

-- `Some(rem_start..this.end)`, if the other range ends inside this one
abbrev pub remainder : Range → Range → Option Range
remainder this other = if ltb other.end this.end then some (other.end until this.end) else none

module _ {A B : Type 0} (ia : RangeIterator A) (ib : RangeIterator B) where
  -- The round once both ranges are taken.
  abbrev pub round_both : Range → A → Range → B → Control (DifferenceIter A B)
  round_both this this_iter other other_iter =
      if leb this.end other.start
      then give (some this) (record {
        this_iter = this_iter;
        other_iter = other_iter;
        this = none;
        other = some other;
      })
      else if leb other.end this.start
      then (let (other', other_iter') = ib.seek_end_ge this.start other_iter in
          again (record {
            this_iter = this_iter;
            other_iter = other_iter';
            this = some this;
            other = other';
          }))
      else let s : DifferenceIter A B = record {
        this_iter = this_iter;
        other_iter = other_iter;
        this = remainder this other;
        other = some other;
      } in
        if ltb this.start other.start then give (some (this.start until other.start)) s else again s

  abbrev pub round_this : Range → A → Option Range × B → Control (DifferenceIter A B)
  round_this this this_iter (none, other_iter) =
      give (some this)
        (record { this_iter = this_iter; other_iter = other_iter; this = none; other = none })
  round_this this this_iter (some other, other_iter) = round_both this this_iter other other_iter

  abbrev pub round_from : Option Range × A → Option Range → B → Control (DifferenceIter A B)
  round_from (none, this_iter) other other_iter =
      give none
        (record { this_iter = this_iter; other_iter = other_iter; this = none; other = other })
  round_from (some this, this_iter) other other_iter =
      round_this this this_iter (take_or_else other (ib.seek_end_ge this.start) other_iter)

  unfoldable pub round : DifferenceIter A B → Control (DifferenceIter A B)
  round s = round_from (take_or_else s.this ia.next s.this_iter) s.other s.other_iter

  unfoldable pub next : ℕ → DifferenceIter A B → Run (Option Range × DifferenceIter A B)
  unfolding run_loop round
  next fuel s = run_loop fuel round s
