-- ===== src/Rangeset/Iter/Intersection.antt =====
-- rangeset/src/iter.rs, `IntersectionIter`.
pub mod Laws
pub mod Values
use tlsn_utils.Base.{ℕ, Option, none, some, Run, ltb, leb, min, max, if◌then◌else◌}
use tlsn_utils.Rangeset.Range.{Range, ◌until◌}
use tlsn_utils.Rangeset.Iter.{RangeIterator, take_or_else, Control, give, again, run_loop}

pub record IntersectionIter (A B : Type 0) : Type 0 where
  pub a_iter : A
  pub b_iter : B
  pub a : Option Range
  pub b : Option Range

unfoldable pub new : {A B : Type 0} → A → B → IntersectionIter A B
new a b = record { a_iter = a; b_iter = b; a = none; b = none }

module _ {A B : Type 0} (ia : RangeIterator A) (ib : RangeIterator B) where
  -- The round once both ranges are taken.
  abbrev pub round_both : Range → A → Range → B → Control (IntersectionIter A B)
  round_both a a_iter b b_iter =
      if leb a.end b.start
      then (let (a', a_iter') = ia.seek_end_ge b.start a_iter in
          again (record { a_iter = a_iter'; b_iter = b_iter; a = a'; b = some b }))
      else if leb b.end a.start
      then (let (b', b_iter') = ib.seek_end_ge a.start b_iter in
          again (record { a_iter = a_iter; b_iter = b_iter'; a = some a; b = b' }))
      else if leb a.end b.end
      then give (some (max a.start b.start until min a.end b.end))
          (record { a_iter = a_iter; b_iter = b_iter; a = none; b = some b })
      else give (some (max a.start b.start until min a.end b.end))
          (record { a_iter = a_iter; b_iter = b_iter; a = some a; b = none })

  abbrev pub round_a : Range → A → Option Range × B → Control (IntersectionIter A B)
  round_a a a_iter (none, b_iter) =
      give none (record { a_iter = a_iter; b_iter = b_iter; a = none; b = none })
  round_a a a_iter (some b, b_iter) = round_both a a_iter b b_iter

  abbrev pub round_from : Option Range × A → Option Range → B → Control (IntersectionIter A B)
  round_from (none, a_iter) b b_iter =
      give none (record { a_iter = a_iter; b_iter = b_iter; a = none; b = b })
  round_from (some a, a_iter) b b_iter = round_a a a_iter (take_or_else b ib.next b_iter)

  unfoldable pub round : IntersectionIter A B → Control (IntersectionIter A B)
  round s = round_from (take_or_else s.a ia.next s.a_iter) s.b s.b_iter

  unfoldable pub next : ℕ → IntersectionIter A B → Run (Option Range × IntersectionIter A B)
  unfolding run_loop round
  next fuel s = run_loop fuel round s

  abbrev reseek : {S : Type 0} → RangeIterator S → ℕ → Option Range → S → Option Range × S
  reseek it n none iter = it.seek_end_ge n iter
  reseek it n (some r) iter = if leb n r.end then (some r, iter) else it.seek_end_ge n iter

  unfoldable pub seek_end_ge :
      ℕ → ℕ → IntersectionIter A B → Run (Option Range × IntersectionIter A B)
  unfolding next
  seek_end_ge fuel n s =
      let (a, a_iter) = reseek ia n s.a s.a_iter in
      let (b, b_iter) = reseek ib n s.b s.b_iter in
      next fuel (record { a_iter = a_iter; b_iter = b_iter; a = a; b = b })
