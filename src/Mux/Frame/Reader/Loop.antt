-- ===== src/Mux/Frame/Reader/Loop.antt =====
-- mux/mux/src/frame/io.rs: the loop of the reader.
use tlsn_utils.Base.{ℕ, zero, suc, ◌<◌, ◌≡◌, sym, ◌∙◌, List, Run, done, Returns, Returns-map, arith}
use tlsn_utils.Mux.Frame.Reader.{
  PollRead, ReadState, PollNext, pending, ended, frame, Control, give, again, round, poll_next,
}
use tlsn_utils.Mux.Frame.Reader.Laws.{IsAnswer, Reading, Same, IsNext, remaining}
use tlsn_utils.Mux.Frame.Reader.Rounds.{IsRound, round-IsRound}

module _ {T : Type 0} (poll_read : ℕ → T → PollRead × T) (content : T → List ℕ) where
  IsNext-Same :
      (consumed consumed' : List ℕ) (t t' : T) (r : PollNext × ReadState × T)
      → Same content consumed t consumed' t'
      → IsNext content consumed' t' r
      → IsNext content consumed t r
  IsNext-Same consumed consumed' t t' (frame f, s', u) e (i, (bytes, g, v)) = (i, (bytes, g ∙ e, v))
  IsNext-Same consumed consumed' t t' (pending, s', u) e (front, g, v) = (front, g ∙ e, v)
  IsNext-Same consumed consumed' t t' (ended, s', u) e v = sym e ∙ v
  IsNext-Same consumed consumed' t t' (PollNext.failed err, s', u) e (front, g, v) =
      (front, g ∙ e, v)

  abbrev after : ℕ → Control T → Run (PollNext × ReadState × T)
  after fuel (give item s' t') = done (item, s', t')
  after fuel (again s' t') = poll_next poll_read fuel s' t'

  poll_next-suc :
      (fuel : ℕ) (s : ReadState) (t : T)
      → poll_next poll_read (suc fuel) s t ≡ after fuel (round poll_read s t)
  unfolding poll_next
  poll_next-suc fuel s t = ground arith

  after-IsRound :
      (fuel : ℕ) (s : ReadState) (consumed : List ℕ) (t : T) (c : Control T)
      → IsRound content consumed t (remaining s) c
      → ((s' : ReadState) (consumed' : List ℕ) (t' : T)
          → Reading s' consumed'
          → remaining s' < remaining s
          → Returns (poll_next poll_read fuel s' t') (IsNext content consumed' t'))
      → Returns (after fuel c) (IsNext content consumed t)
  after-IsRound fuel s consumed t (give item s' t') g ih = g
  after-IsRound fuel s consumed t (again s' t') (consumed', same, v, lt) ih =
      Returns-map (IsNext content consumed' t') (IsNext content consumed t)
        (poll_next poll_read fuel s' t') (λ r g. IsNext-Same consumed consumed' t t' r same g)
        (ih s' consumed' t' v lt)

  -- With fuel past the bytes and stages that are left, `poll_next` ends. A frame that it gives is made of
  -- the bytes consumed and the next ones of the transport, and no byte after it is taken. It ends the
  -- stream only if no byte is left. Where it waits or fails, the state accounts for all bytes taken.
  pub poll_next-IsNext :
      (answers : (n : ℕ) (u : T) → 0 < n → IsAnswer poll_read content n u (poll_read n u))
      (fuel : ℕ) (s : ReadState) (consumed : List ℕ) (t : T)
      → Reading s consumed
      → remaining s < fuel
      → Returns (poll_next poll_read fuel s t) (IsNext content consumed t)
  poll_next-IsNext answers zero s consumed t v h = absurd (omega arith)
  poll_next-IsNext answers (suc fuel) s consumed t v h = rw (poll_next-suc fuel s t) (
      after-IsRound fuel s consumed t (round poll_read s t)
        (round-IsRound poll_read content s consumed t answers v)
        λ s' consumed' t' v' lt. poll_next-IsNext answers fuel s' consumed' t' v' (omega arith))
