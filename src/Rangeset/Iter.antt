-- ===== src/Rangeset/Iter.antt =====
-- rangeset/src/iter.rs: the trait `RangeIterator` and what its iterators share.
pub mod Intersection
pub mod Difference
pub mod Slices
pub mod Loops
use tlsn_utils.Base.{
  ℕ, zero, suc, Bool, true, false, Option, none, some, List, [], ◌∷◌, ◌≡◌, arith, refl, Run, done,
  out_of_fuel, leb, if◌then◌else◌,
}
use tlsn_utils.Rangeset.Range.{Range}

-- An implementation of the trait for the state `S`: the two methods that the others call.
pub record RangeIterator (S : Type 0) : Type 0 where
  pub next : S → Option Range × S
  pub seek_end_ge : ℕ → S → Option Range × S

-- `slot.take().or_else(|| advance(iter))`: the item, and the iterator afterwards.
abbrev pub take_or_else :
    {S : Type 0} → Option Range → (S → Option Range × S) → S → Option Range × S
take_or_else none advance iter = advance iter
take_or_else (some r) advance iter = (some r, iter)

-- One round of the `loop` of a `next` method: `return`, or `continue` with the new state.
pub data Control (S : Type 0) : Type 0 where
  give : Option Range → S → Control S
  again : S → Control S

-- What follows a round.
abbrev pub after : {S : Type 0} → (S → Run (Option Range × S)) → Control S → Run (Option Range × S)
after rest (give item s') = done (item, s')
after rest (again s') = rest s'

unfoldable pub run_loop : {S : Type 0} → ℕ → (S → Control S) → S → Run (Option Range × S)
run_loop zero round s = out_of_fuel
run_loop (suc fuel) round s = elim (round s) [
  | give item s' ↦ done (item, s')
  | again s' ↦ run_loop fuel round s'
]

pub run_loop-after :
    {S : Type 0} (fuel : ℕ) (round : S → Control S) (s : S)
    → run_loop (suc fuel) round s ≡ after (run_loop fuel round) (round s)
unfolding run_loop
run_loop-after fuel round s = ground arith
