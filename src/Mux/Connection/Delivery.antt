-- ===== src/Mux/Connection/Delivery.antt =====
-- mux/mux/src/connection/active.rs: what a data frame and a window update do to the stream that they are
-- for.
use tlsn_utils.Base.{
  ℕ, ◌+◌, ◌-◌, ◌^◌, ◌≤◌, ◌<◌, ◌≡◌, refl, subst, true, false, ◌&&◌, Option, none, some, List, ◌∷◌,
  ◌++◌, ◌==◌, ltb, leb, u32_max, if◌then◌else◌, length, All, arith, inl, inr, Bool-cases,
}
use tlsn_utils.Mux.Config.{Config}
use tlsn_utils.Mux.Header.{StreamId, contains, is_session, fin_flag, rst_flag}
use tlsn_utils.Mux.Frame.{Frame, protocol_error}
use tlsn_utils.Mux.Chunks.{push}
use tlsn_utils.Mux.Chunks.Laws as Chunks
use tlsn_utils.Mux.Flow.{FlowController, consume_receive_window, increase_send_window_by}
use tlsn_utils.Mux.Stream.{Shared, recv_closed, next_state, update_state}
use tlsn_utils.Mux.Rtt.{nothing, pong, terminate}
use tlsn_utils.Mux.Connection.IdMap.{lookup, is_some}
use tlsn_utils.Mux.Connection.Registry.{to_wake}
use tlsn_utils.Mux.Connection.Registry.Links.{IsHeld}
use tlsn_utils.Mux.Connection.Registry.Invariant.{All-at}
use tlsn_utils.Mux.Connection.Driver.Handlers.{IsActive}
use tlsn_utils.Mux.Connection.System.{new, Reach}
use tlsn_utils.Mux.Connection.System.Invariant.{reached-IsActive}
use tlsn_utils.Mux.Connection.Active.{
  Active, Handled, body_len, received, delivered, deliver, on_data, credited, credit_at,
  on_window_update,
}

-- The state `b` after the body of `f` went into the cell `addr` of `a`.
pub record IsTaken (f : Frame) (addr : ℕ) (a b : Active) : Type 0 where
  pub window :
      (b.registry.cells addr).flow_controller.receive_window + length f.body
      ≡ (a.registry.cells addr).flow_controller.receive_window
  pub buffered :
      Chunks.unread ((b.registry.cells addr).buffer)
      ≡ Chunks.unread ((a.registry.cells addr).buffer) ++ f.body
  pub valid : Chunks.IsValid ((b.registry.cells addr).buffer)
  pub state : (b.registry.cells addr).state ≡ (
      if contains f.header.flags fin_flag
      then next_state ((a.registry.cells addr).state) recv_closed
      else (a.registry.cells addr).state)
  pub woken : b.registry.woken ≡ a.registry.woken ++ to_wake ((a.registry.cells addr).reader)
  pub others :
      (other : ℕ) → (other == addr) ≡ false → b.registry.cells other ≡ a.registry.cells other
  pub streams : b.registry.streams ≡ a.registry.streams

-- What the frame `f` for the stream in the cell `addr` may result in.
abbrev pub IsDelivered : Frame → ℕ → Active → Handled → Type 0
IsDelivered f addr a none = ⊥
IsDelivered f addr a (some (nothing, b)) = IsTaken f addr a b
IsDelivered f addr a (some (pong n, b)) = ⊥
IsDelivered f addr a (some (terminate t, b)) =
    ((a.registry.cells addr).flow_controller.receive_window < length f.body)
    × (t ≡ protocol_error)
    × (b ≡ a)

module _ (f : Frame) (addr : ℕ) (a : Active) (word : length f.body < 2 ^ 32)
    (valid : Chunks.IsValid ((a.registry.cells addr).buffer)) where
  taken_state :
      (controller : FlowController)
      → (received f (a.registry.cells addr) controller).state ≡ (
          if contains f.header.flags fin_flag
          then next_state ((a.registry.cells addr).state) recv_closed
          else (a.registry.cells addr).state)
  unfolding update_state
  taken_state controller = ground arith

  taken_buffer :
      (controller : FlowController)
      → (received f (a.registry.cells addr) controller).buffer
        ≡ push ((a.registry.cells addr).buffer) f.body
  unfolding update_state
  taken_buffer controller = ground arith

  here : (addr == addr) ≡ true
  here = ground arith

  delivered-IsTaken :
      (controller : FlowController)
      → controller.receive_window + length f.body
        ≡ (a.registry.cells addr).flow_controller.receive_window
      → IsDelivered f addr a (delivered f addr a (some controller))
  delivered-IsTaken controller e = record {
    window = rw here e;
    buffered = rw here (
        rw (taken_buffer controller)
          (Chunks.push_lem ((a.registry.cells addr).buffer) f.body valid).1);
    valid = rw here (
        rw (taken_buffer controller)
          (Chunks.push_lem ((a.registry.cells addr).buffer) f.body valid).0);
    state = rw here (taken_state controller);
    woken = refl;
    others = λ other h. rw h refl;
    streams = refl;
  }

  fits :
      ltb ((a.registry.cells addr).flow_controller.receive_window) (body_len f) ≡ false
      → leb (body_len f) ((a.registry.cells addr).flow_controller.receive_window) ≡ true
  fits e = ground arith

  pub deliver-IsDelivered : IsDelivered f addr a (deliver f addr a)
  unfolding deliver consume_receive_window
  deliver-IsDelivered =
      elim (Bool-cases
        (ltb ((a.registry.cells addr).flow_controller.receive_window) (body_len f))) [
          | inl e ↦ rw e (ground arith, refl, refl)
          | inr e ↦
              rw (e, fits e)
                (delivered-IsTaken
                  (record ((a.registry.cells addr).flow_controller) {
                    receive_window =
                        (a.registry.cells addr).flow_controller.receive_window - body_len f;
                  })
                  (ground arith))
        ]

-- A data frame without RST, for an active stream that a handle is for and that is not the session, with
-- fewer than 2^32 bytes, in any state that the connection reaches in which the buffer of the handle's cell
-- is well formed: the handler never panics, and refuses the frame, with the state as it was, exactly if the body exceeds the
-- window of the handle's cell. Else the body is appended to the bytes that the handle reads next, the
-- window shrinks by its length, a FIN closes the direction, the waiting reader is woken, and no other cell
-- changes.
pub on_data-IsDelivered :
    (c : Config) (start now : ℕ) (cells : ℕ → Shared) (a : Active) (f : Frame)
    (before after : List (StreamId × ℕ)) (addr : ℕ)
    → Reach (new c start cells) a
    → a.registry.handles ≡ before ++ ((f.header.stream_id, addr) ∷ after)
    → is_some (lookup f.header.stream_id a.registry.streams) ≡ true
    → contains f.header.flags rst_flag ≡ false
    → is_session f.header.stream_id ≡ false
    → length f.body < 2 ^ 32
    → Chunks.IsValid ((a.registry.cells addr).buffer)
    → IsDelivered f addr a (on_data now f a)
unfolding on_data
on_data-IsDelivered c start now cells a f before after addr r e active other stream word valid =
    rw (other, stream, shared (held (reached-IsActive c start cells r)))
      (deliver-IsDelivered f addr a word valid)
  where
    held :
        IsActive c a
        → IsHeld a.registry.streams a.registry.inactive (f.header.stream_id, addr)
          × ((is_some (lookup f.header.stream_id a.registry.streams)
                && is_some (lookup f.header.stream_id a.registry.inactive))
              ≡ false)
    held v = (
      All-at (IsHeld a.registry.streams a.registry.inactive) before after (f.header.stream_id, addr)
          (subst (All (IsHeld a.registry.streams a.registry.inactive)) e v.registry.links.held),
      v.registry.links.apart f.header.stream_id,
    )

    shared :
        IsHeld a.registry.streams a.registry.inactive (f.header.stream_id, addr)
          × ((is_some (lookup f.header.stream_id a.registry.streams)
                && is_some (lookup f.header.stream_id a.registry.inactive))
              ≡ false)
        → lookup f.header.stream_id a.registry.streams ≡ some addr
    shared (inl h, apart) = h
    shared (inr h, apart) = absurd (ground arith)

-- The state `b` after the credit of `f` went to the cell `addr` of `a`.
pub record IsRaised (f : Frame) (addr : ℕ) (a b : Active) : Type 0 where
  pub window :
      (b.registry.cells addr).flow_controller.send_window
      ≡ (a.registry.cells addr).flow_controller.send_window + f.header.length
  pub word : (b.registry.cells addr).flow_controller.send_window ≤ u32_max
  pub writer : (b.registry.cells addr).writer ≡ none
  pub woken : b.registry.woken ≡ a.registry.woken ++ to_wake ((a.registry.cells addr).writer)
  pub others :
      (other : ℕ) → (other == addr) ≡ false → b.registry.cells other ≡ a.registry.cells other

abbrev pub IsCredited : Frame → Active → Option ℕ → Handled → Type 0
IsCredited f a none h = h ≡ some (nothing, a)
IsCredited f a (some addr) none =
    u32_max < (a.registry.cells addr).flow_controller.send_window + f.header.length
IsCredited f a (some addr) (some (nothing, b)) = IsRaised f addr a b
IsCredited f a (some addr) (some (pong n, b)) = ⊥
IsCredited f a (some addr) (some (terminate t, b)) = ⊥

-- A window update for a stream that is not active changes nothing. For the cell of an active stream it
-- adds the credit to the window to send, wakes the waiting writer and leaves the other cells; where the
-- sum exceeds `u32::MAX` the handler panics.
pub on_window_update-IsCredited :
    (f : Frame) (a : Active)
    → IsCredited f a (lookup f.header.stream_id a.registry.streams) (on_window_update f a)
unfolding on_window_update increase_send_window_by
on_window_update-IsCredited f a = go (lookup f.header.stream_id a.registry.streams)
  where
    self : (addr : ℕ) → (addr == addr) ≡ true
    self addr = ground arith

    raised :
        (addr : ℕ)
        → (addr == addr) ≡ true
        → leb ((a.registry.cells addr).flow_controller.send_window + f.header.length) u32_max ≡ true
        → IsCredited f a (some addr) (
            credited addr a (
              some (record ((a.registry.cells addr).flow_controller) {
                send_window = (a.registry.cells addr).flow_controller.send_window + f.header.length;
              })))
    raised addr h e = record {
      window = rw h refl;
      word = rw h (ground arith);
      writer = rw h refl;
      woken = refl;
      others = λ other k. rw k refl;
    }

    go : (found : Option ℕ) → IsCredited f a found (credit_at f a found)
    go none = refl
    go (some addr) =
        elim (Bool-cases
          (leb ((a.registry.cells addr).flow_controller.send_window + f.header.length) u32_max)) [
            | inl e ↦ rw e (raised addr (self addr) e)
            | inr e ↦ rw e (ground arith)
          ]
