-- ===== src/Mux/Flow/Drop.antt =====
-- mux/mux/src/connection/stream/flow_control.rs: what a dropped stream gives back to the connection.
use tlsn_utils.Base.{ℕ, ◌+◌, ◌-◌, ◌≤◌, ◌≡◌, Option, none, some, le→leb, arith, subst}
use tlsn_utils.Mux.Config.{default_credit}
use tlsn_utils.Mux.Flow.{FlowController, Pooled, next_window_update, drop}
use tlsn_utils.Mux.Flow.Update.{IsValid, Updated, next_window_update-Updated}

-- `q` is the pool `p` without what the stream with the window `max` held.
abbrev pub IsReleased : ℕ → Pooled → Option Pooled → Type 0
IsReleased max p none = ⊥
IsReleased max p (some q) = q.accumulated + (max - default_credit) ≡ p.accumulated

drop-IsReleased :
    (s : FlowController) (p : Pooled) → IsValid s p → IsReleased s.max_receive_window p (drop s p)
unfolding drop
drop-IsReleased s p v =
    rw
      (
        le→leb default_credit s.max_receive_window v.least,
        le→leb (s.max_receive_window - default_credit) p.accumulated v.share,
      )
      (omega (arith, v.share))

release :
    (s s' : FlowController) (p p' : Pooled) (q : Option Pooled)
    → default_credit ≤ s.max_receive_window
    → default_credit ≤ s'.max_receive_window
    → p'.accumulated + s.max_receive_window ≡ p.accumulated + s'.max_receive_window
    → IsReleased s'.max_receive_window p' q
    → IsReleased s.max_receive_window p q
release s s' p p' none h k b r = r
release s s' p p' (some q) h k b r = omega arith

release-Updated :
    (s s' : FlowController) (p p' : Pooled) (buffer_len : ℕ) (grant : Option ℕ)
    → IsValid s p
    → Updated s p buffer_len (some (grant, s', p'))
    → IsReleased s.max_receive_window p (drop s' p')
release-Updated s s' p p' buffer_len none v (small, e, f) = rw (e, f) (drop-IsReleased s p v)
release-Updated s s' p p' buffer_len (some n) v (half, g) =
    release s s' p p' (drop s' p') v.least g.valid.least g.booked (drop-IsReleased s' p' g.valid)

-- From a valid state, whatever `next_window_update` has changed, dropping the stream never panics, and
-- leaves the sum of the windows as it was before the update less what the stream held then: all that
-- the window has grown is given back.
pub next_window_update-drop :
    (s s' : FlowController) (p p' : Pooled) (buffer_len elapsed now : ℕ) (grant : Option ℕ)
    → IsValid s p
    → buffer_len ≤ s.max_receive_window
    → next_window_update s p buffer_len elapsed now ≡ some (grant, s', p')
    → IsReleased s.max_receive_window p (drop s' p')
next_window_update-drop s s' p p' buffer_len elapsed now grant v h e =
    release-Updated s s' p p' buffer_len grant v (
      subst (λ r. Updated s p buffer_len r) e
        (next_window_update-Updated s p buffer_len elapsed now v h))
