-- ===== src/Mux/Connection/Closing/Released.antt =====
-- mux/mux/src/connection/active.rs: the loops of `prepare_close` and `drop_all_streams` end each stream.
use tlsn_utils.Base.{
  ℕ, ◌≡◌, refl, true, false, none, [], ◌∷◌, ◌==◌, All, arith, inl, inr, Bool-cases,
}
use tlsn_utils.Mux.Header.{StreamId}
use tlsn_utils.Mux.Stream.{
  Shared, State, open_, send_closed, recv_closed, closed, can_read, next_state,
}
use tlsn_utils.Mux.Connection.IdMap.{IdMap}
use tlsn_utils.Mux.Connection.Registry.{Registry, close_and_wake}
use tlsn_utils.Mux.Connection.Driver.{close_all}

-- No task waits on the cell, and it can no longer receive.
abbrev pub IsReleased : Shared → Type 0
IsReleased s = (can_read s.state ≡ false) × (s.reader ≡ none) × (s.writer ≡ none)

abbrev pub IsEnd : State → Type 0
IsEnd next = (s : State) → can_read (next_state s next) ≡ false

pub recv_closed-IsEnd : IsEnd recv_closed
recv_closed-IsEnd open_ = refl
recv_closed-IsEnd send_closed = refl
recv_closed-IsEnd recv_closed = refl
recv_closed-IsEnd closed = refl

pub closed-IsEnd : IsEnd closed
closed-IsEnd open_ = refl
closed-IsEnd send_closed = refl
closed-IsEnd recv_closed = refl
closed-IsEnd closed = refl

module _ (next : State) (end : IsEnd next) where
  close_and_wake-IsReleased :
      (addr : ℕ) (r : Registry) → IsReleased ((close_and_wake next addr r).cells addr)
  unfolding close_and_wake
  close_and_wake-IsReleased addr r =
      let here : (addr == addr) ≡ true = ground arith in
      rw here (end ((r.cells addr).state), refl, refl)

  close_and_wake-keeps :
      (addr other : ℕ) (r : Registry)
      → IsReleased (r.cells other)
      → IsReleased ((close_and_wake next addr r).cells other)
  unfolding close_and_wake
  close_and_wake-keeps addr other r h = elim (Bool-cases (other == addr)) [
    | inl e ↦ rw e (end ((r.cells addr).state), refl, refl)
    | inr e ↦ rw e h
  ]

  pub close_all-keeps :
      (m : IdMap ℕ) (other : ℕ) (r : Registry)
      → IsReleased (r.cells other)
      → IsReleased ((close_all next m r).cells other)
  unfolding close_all
  close_all-keeps [] other r h = h
  close_all-keeps ((id, addr) ∷ m) other r h =
      close_all-keeps m other (close_and_wake next addr r) (close_and_wake-keeps addr other r h)

  pub close_all-IsReleased :
      (m : IdMap ℕ) (r : Registry)
      → All (λ (e : StreamId × ℕ). IsReleased ((close_all next m r).cells e.1)) m
  unfolding close_all
  close_all-IsReleased [] r = tt
  close_all-IsReleased ((id, addr) ∷ m) r = (
    close_all-keeps m addr (close_and_wake next addr r) (close_and_wake-IsReleased addr r),
    close_all-IsReleased m (close_and_wake next addr r),
  )
