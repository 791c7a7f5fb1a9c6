-- ===== src/Mux/Stream/Laws.antt =====
-- mux/mux/src/connection/stream.rs: the directions that a state closes, and what `poll_write` sends.
use tlsn_utils.Base.{
  ℕ, ◌+◌, ◌-◌, ◌≡◌, refl, ap, sym, ◌∙◌, ◌⊎◌, inl, inr, Bool, true, false, ◌&&◌, Option, none, some,
  List, length, take, arith, min, u32_max, le→leb, length-take, ◌==◌, Bool-cases,
}
use tlsn_utils.Mux.Config.{Config}
use tlsn_utils.Mux.Header.{StreamId, syn, data_header, contains, syn_flag}
use tlsn_utils.Mux.Frame.{Frame, data_frame}
use tlsn_utils.Mux.Flow.{FlowController, consume_send_window}
use tlsn_utils.Mux.Stream.{
  State, open_, send_closed, recv_closed, closed, can_read, can_write, next_state, Shared,
  update_state, ready, WritePoll, write_zero, wrote, panicked, write_size, send_frame,
  write_activated, with_syn,
}

can_read-next_state : (a b : State) → can_read (next_state a b) ≡ (can_read a && can_read b)
can_read-next_state open_ b = refl
can_read-next_state closed b = refl
can_read-next_state send_closed open_ = refl
can_read-next_state send_closed send_closed = refl
can_read-next_state send_closed recv_closed = refl
can_read-next_state send_closed closed = refl
can_read-next_state recv_closed open_ = refl
can_read-next_state recv_closed send_closed = refl
can_read-next_state recv_closed recv_closed = refl
can_read-next_state recv_closed closed = refl

can_write-next_state : (a b : State) → can_write (next_state a b) ≡ (can_write a && can_write b)
can_write-next_state open_ b = refl
can_write-next_state closed b = refl
can_write-next_state send_closed open_ = refl
can_write-next_state send_closed send_closed = refl
can_write-next_state send_closed recv_closed = refl
can_write-next_state send_closed closed = refl
can_write-next_state recv_closed open_ = refl
can_write-next_state recv_closed send_closed = refl
can_write-next_state recv_closed recv_closed = refl
can_write-next_state recv_closed closed = refl

-- An update closes the directions that the new state has closed and opens none again: the stream can
-- read, or write, exactly if both the old state and the new one can. It returns the old state and
-- leaves the windows and the buffer.
pub update_state_lem :
    (s : Shared) (next : State)
    → let r = update_state s next in
      (can_read r.1.state ≡ (can_read s.state && can_read next))
      × (can_write r.1.state ≡ (can_write s.state && can_write next))
      × (r.0 ≡ s.state)
      × (r.1.flow_controller ≡ s.flow_controller)
      × (r.1.buffer ≡ s.buffer)
unfolding update_state
update_state_lem s next =
    (can_read-next_state s.state next, can_write-next_state s.state next, refl, refl, refl)

-- What a write past `poll_activate` may answer once the sender is ready.
abbrev pub IsWritten :
    Bool → ℕ → Config → Shared → List ℕ → WritePoll × Shared × Option Frame → Type 0
IsWritten started waker config s buf (WritePoll.pending, s', sent) =
    (sent ≡ none) × (s.flow_controller.send_window ≡ 0) × (s' ≡ record s { writer = some waker })
IsWritten started waker config s buf (write_zero, s', sent) =
    (sent ≡ none) × ((can_write s.state ≡ false) ⊎ (started ≡ false))
IsWritten started waker config s buf (wrote n, s', none) = ⊥
IsWritten started waker config s buf (wrote n, s', some f) =
    (n ≡ min (length buf) (min s.flow_controller.send_window (min u32_max config.split_send_size)))
    × (n + s'.flow_controller.send_window ≡ s.flow_controller.send_window)
    × (f.body ≡ take n buf)
    × (f.header.length ≡ n)
    × (contains f.header.flags syn_flag ≡ s.syn_pending)
    × (s'.syn_pending ≡ false)
    × (s'.state ≡ s.state)
    × (can_write s.state ≡ true)
IsWritten started waker config s buf (panicked, s', sent) = ⊥

module _ (config : Config) (s : Shared) (buf : List ℕ) where
  abbrev size : ℕ
  size = write_size config s (length buf)

  length-body : length (take size buf) ≡ size
  length-body = omega (arith, length-take size buf)

  abbrev consumed : FlowController
  consumed = record s.flow_controller { send_window = s.flow_controller.send_window - size }

  consume_lem : consume_send_window s.flow_controller size ≡ some consumed
  unfolding consume_send_window
  consume_lem = rw (le→leb size s.flow_controller.send_window (omega arith))

  data_lem :
      (id : StreamId)
      → data_frame id (take size buf)
        ≡ some (record { header = data_header id (length (take size buf)); body = take size buf })
  unfolding data_frame
  data_lem id = rw (le→leb (length (take size buf)) u32_max (omega (arith, length-body)))

  abbrev body_frame : StreamId → Frame
  body_frame id = record { header = data_header id (length (take size buf)); body = take size buf }

  with_syn_body :
      (syn_pending : Bool) (id : StreamId)
      → ((with_syn syn_pending (body_frame id)).body ≡ take size buf)
        × ((with_syn syn_pending (body_frame id)).header.length ≡ size)
        × (contains (with_syn syn_pending (body_frame id)).header.flags syn_flag ≡ syn_pending)
  unfolding syn data_header contains
  with_syn_body false id = (refl, length-body, refl)
  with_syn_body true id = (refl, length-body, refl)

  send_frame-IsWritten :
      (started : Bool) (waker : ℕ) (id : StreamId)
      → can_write s.state ≡ true
      → IsWritten started waker config s buf (
          send_frame started
            (length (take size buf))
            (record s { flow_controller = consumed })
            (some (body_frame id)))
  send_frame-IsWritten false waker id e = (refl, inr refl)
  send_frame-IsWritten true waker id e =
      let w = with_syn_body s.syn_pending id in
      (
        omega (arith, length-body),
        omega (arith, length-body),
        w.0 ∙ ap (λ n. take n buf) (sym length-body),
        w.1 ∙ sym length-body,
        w.2,
        refl,
        refl,
        e,
      )

-- With a sender that is ready, a write that is past `poll_activate` never panics. It waits, with the waker stored, only if the
-- send window is 0, and fails, with nothing sent, only if the stream cannot write or the sender refuses
-- the frame. Else it sends a frame whose body is the longest start of the buffer that the send window,
-- the configured size and `u32::MAX` allow, takes that much off the window, and owes no SYN: the frame has the flag exactly if one was owed.
pub write_activated-IsWritten :
    (started : Bool) (waker : ℕ) (config : Config) (id : StreamId) (s : Shared) (buf : List ℕ)
    → IsWritten started waker config s buf (write_activated ready started waker config id s buf)
unfolding write_activated
write_activated-IsWritten started waker config id s buf = elim (Bool-cases (can_write s.state)) [
  | inl e ↦ elim (Bool-cases (s.flow_controller.send_window == 0)) [
    | inl f ↦ rw (e, f) (refl, ground arith, refl)
    | inr f ↦
        rw (e, f, consume_lem config s buf, data_lem config s buf id)
          (send_frame-IsWritten config s buf started waker id e)
  ]
  | inr e ↦ rw e (refl, inl e)
]
