-- ===== src/Mux/Frame/Writer/Loop.antt =====
-- mux/mux/src/frame/io.rs: the loop of the writer.
use tlsn_utils.Base.{ℕ, zero, suc, ◌<◌, ◌≡◌, refl, ◌∙◌, List, Returns, Returns-map, arith, length}
use tlsn_utils.Mux.Frame.Writer.{
  PollWrite, WriteState, PollReady, ok, Control, give, again, round, after, poll_ready,
}
use tlsn_utils.Mux.Frame.Writer.Laws.{owed, IsWriting, IsTaken, Kept, IsReady, IsRound}
use tlsn_utils.Mux.Frame.Writer.Rounds.{round-IsRound}

module _ {T : Type 0} (poll_write : List ℕ → T → PollWrite × T) (written : T → List ℕ) where
  poll_ready-suc :
      (fuel : ℕ) (s : WriteState) (t : T)
      → poll_ready poll_write (suc fuel) s t
        ≡ after poll_write (poll_ready poll_write fuel) (round poll_write s t)
  unfolding poll_ready
  poll_ready-suc fuel s t = refl

  IsReady-Kept :
      (s s' : WriteState) (t t' : T) (r : PollReady × WriteState × T)
      → Kept written s t s' t'
      → IsReady written s' t' r
      → IsReady written s t r
  IsReady-Kept s s' t t' (ok, s2, u) k (i, e) = (i, e ∙ k)
  IsReady-Kept s s' t t' (PollReady.pending, s2, u) k (w, e) = (w, e ∙ k)
  IsReady-Kept s s' t t' (PollReady.failed err, s2, u) k (w, e) = (w, e ∙ k)

  after-IsRound :
      (fuel : ℕ) (s : WriteState) (t : T) (c : Control T)
      → IsRound written s t c
      → ((s' : WriteState) (t' : T)
          → IsWriting s'
          → length (owed s') < length (owed s)
          → Returns (poll_ready poll_write fuel s' t') (IsReady written s' t'))
      → Returns (after poll_write (poll_ready poll_write fuel) c) (IsReady written s t)
  after-IsRound fuel s t (give item s' t') g ih = g
  after-IsRound fuel s t (again s' t') (w, k, lt) ih =
      Returns-map (IsReady written s' t') (IsReady written s t) (poll_ready poll_write fuel s' t')
        (λ r g. IsReady-Kept s s' t t' r k g) (ih s' t' w lt)

  -- Over a transport that takes no more bytes than it is given, `poll_ready` ends, with fuel past the
  -- bytes that are owed, and the state is never poisoned. Where it is ready, the transport has taken all
  -- of them, in order; where it waits or fails, those taken and those still owed are together the same.
  pub poll_ready-IsReady :
      (answers : (bytes : List ℕ) (u : T) → IsTaken written bytes u (poll_write bytes u)) (fuel : ℕ)
      (s : WriteState) (t : T)
      → IsWriting s
      → length (owed s) < fuel
      → Returns (poll_ready poll_write fuel s t) (IsReady written s t)
  poll_ready-IsReady answers zero s t v h = absurd (omega arith)
  poll_ready-IsReady answers (suc fuel) s t v h = rw (poll_ready-suc fuel s t) (
      after-IsRound fuel s t (round poll_write s t) (round-IsRound poll_write written s t answers v)
        λ s' t' v' lt. poll_ready-IsReady answers fuel s' t' v' (omega arith))
