-- ===== src/Mux/Connection/Registry/Drop.antt =====
-- mux/mux/src/connection/active.rs: `on_drop_stream`, by what the stream could still do.
use tlsn_utils.Base.{
  ℕ, ◌≤◌, ◌<◌, ◌≡◌, refl, true, false, not, Option, none, some, [], ◌==◌, ltb, if◌then◌else◌,
  length, arith,
}
use tlsn_utils.Mux.Header.{StreamId, contains, rst_flag, fin_flag, rst, fin, data_header}
use tlsn_utils.Mux.Frame as Frame
use tlsn_utils.Mux.Frame.{Frame}
use tlsn_utils.Mux.Stream.{
  State, open_, send_closed, recv_closed, closed, can_read, can_write, next_state,
}
use tlsn_utils.Mux.Connection.IdMap.{
  lookup, remove, insert, same_id_refl, lookup-remove, length-remove,
}
use tlsn_utils.Mux.Connection.Registry.{
  Registry, strong_count, on_drop_stream, close_frame, owe, close_and_wake, wake_slot_waiters,
}

-- What the peer is told of a dropped stream: nothing if our direction was closed. Else the owed frame
-- closes our direction, and resets the stream if the peer could still send.
abbrev pub IsTold : StreamId → State → Registry → Registry → Type 0
IsTold id state r r' =
    (f : Frame) × (lookup id r'.owed_close ≡ some f)
    × (f.header.stream_id ≡ id)
    × (f.body ≡ [])
    × (contains f.header.flags rst_flag ≡ can_read state)
    × (contains f.header.flags fin_flag ≡ not (can_read state))
    × (r'.slot_wakers ≡ r.slot_wakers)

abbrev pub IsSilent : Registry → Registry → Type 0
IsSilent r r' = (r'.owed_close ≡ r.owed_close) × (r'.slot_wakers ≡ [])

abbrev pub IsClosed : StreamId → State → Registry → Registry → Type 0
IsClosed id state r r' = if can_write state then IsTold id state r r' else IsSilent r r'

owe-IsClosed :
    (id : StreamId) (state : State) (r : Registry)
    → IsClosed id state r (owe id (close_frame id state) r)
unfolding wake_slot_waiters insert lookup contains rst fin data_header Frame.new
owe-IsClosed id open_ r =
    (Frame.new (rst (data_header id 0)), rw (same_id_refl id) refl, refl, refl, refl, refl, refl)
owe-IsClosed id recv_closed r =
    (Frame.new (fin (data_header id 0)), rw (same_id_refl id) refl, refl, refl, refl, refl, refl)
owe-IsClosed id send_closed r = (refl, refl)
owe-IsClosed id closed r = (refl, refl)

-- The registry after the last handle of the active stream `id` in the cell `addr` was dropped.
pub record IsReaped (id : StreamId) (addr : ℕ) (r r' : Registry) : Type 0 where
  pub gone : lookup id r'.streams ≡ none
  pub fewer : length r'.streams ≤ length r.streams
  pub cell : (r'.cells addr).state ≡ closed
  pub quiet : ((r'.cells addr).reader ≡ none) × ((r'.cells addr).writer ≡ none)
  pub others : (other : ℕ) → (other == addr) ≡ false → r'.cells other ≡ r.cells other
  pub told : IsClosed id ((r.cells addr).state) r r'

next_state-closed : (s : State) → next_state s closed ≡ closed
next_state-closed open_ = refl
next_state-closed send_closed = refl
next_state-closed recv_closed = refl
next_state-closed closed = refl

module _ (id : StreamId) (addr : ℕ) (r : Registry) where
  abbrev ended : Registry
  ended = close_and_wake closed addr (record r { streams = remove id r.streams })

  ended_cell :
      ((ended.cells addr).state ≡ closed)
      × ((ended.cells addr).reader ≡ none)
      × ((ended.cells addr).writer ≡ none)
  unfolding close_and_wake
  ended_cell =
      let here : (addr == addr) ≡ true = ground arith in
      rw here (next_state-closed ((r.cells addr).state), refl, refl)

  ended_others : (other : ℕ) → (other == addr) ≡ false → ended.cells other ≡ r.cells other
  unfolding close_and_wake
  ended_others other h = rw h refl

  ended_streams : (lookup id ended.streams ≡ none) × (length ended.streams ≤ length r.streams)
  unfolding close_and_wake
  ended_streams =
      (ground (arith, lookup-remove id id r.streams, same_id_refl id), length-remove id r.streams)

  owe-IsReaped :
      (frame : Option Frame)
      → IsClosed id ((r.cells addr).state) r (owe id frame ended)
      → IsReaped id addr r (owe id frame ended)
  unfolding wake_slot_waiters
  owe-IsReaped none told = record {
    gone = ended_streams.0;
    fewer = ended_streams.1;
    cell = ended_cell.0;
    quiet = (ended_cell.1, ended_cell.2);
    others = ended_others;
    told = told;
  }
  owe-IsReaped (some f) told = record {
    gone = ended_streams.0;
    fewer = ended_streams.1;
    cell = ended_cell.0;
    quiet = (ended_cell.1, ended_cell.2);
    others = ended_others;
    told = told;
  }

  ended-IsClosed :
      IsClosed id ((r.cells addr).state) r (owe id (close_frame id ((r.cells addr).state)) ended)
  unfolding close_and_wake
  ended-IsClosed = owe-IsClosed id ((r.cells addr).state) ended

  is_held_more : (1 < strong_count r addr) → ltb 1 (strong_count r addr) ≡ true
  is_held_more h = ground arith

  is_held_one : (strong_count r addr ≤ 1) → ltb 1 (strong_count r addr) ≡ false
  is_held_one h = ground arith

  -- The drop of a handle of the active stream `id` changes nothing while another handle is there. The drop
  -- of the last one ends the stream: the driver lets it go, and tells the peer what is still open.
  pub on_drop_stream-IsReaped :
      lookup id r.streams ≡ some addr
      → lookup id r.inactive ≡ none
      → ((1 < strong_count r addr) → on_drop_stream id r ≡ r)
        × ((strong_count r addr ≤ 1) → IsReaped id addr r (on_drop_stream id r))
  unfolding on_drop_stream
  on_drop_stream-IsReaped e f = (
    (λ h. rw (e, f, is_held_more h) refl),
    (λ h.
        rw (e, f, is_held_one h)
          (owe-IsReaped (close_frame id ((r.cells addr).state)) ended-IsClosed)),
  )
