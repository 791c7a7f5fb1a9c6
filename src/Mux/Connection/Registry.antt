-- ===== src/Mux/Connection/Registry.antt =====
-- mux/mux/src/connection/active.rs: `StreamRegistry`, the streams of a connection, and `poll_activate`
-- of mux/mux/src/connection/stream.rs, which claims a slot in it. The shared state of a stream stands
-- in a store, `cells`, at the address that each `Arc` to it holds: the maps hold addresses, and
-- `handles` has the identifier and the address of every `Stream` that is alive. What the channels
-- carry is in the model of the driver.
pub mod Links
pub mod Invariant
pub mod Drop
use tlsn_utils.Base.{
  ℕ, suc, ◌+◌, ◌≤◌, ◌<◌, ◌≡◌, Bool, true, false, ◌&&◌, ◌||◌, Option, none, some, List, [], ◌∷◌,
  ◌++◌, ltb, leb, ◌==◌, if◌then◌else◌, length,
}
use tlsn_utils.Mux.Config.{Config, default_credit}
use tlsn_utils.Mux.Header as Header
use tlsn_utils.Mux.Header.{StreamId, rst, fin, data_header}
use tlsn_utils.Mux.Frame as Frame
use tlsn_utils.Mux.Frame.{Frame}
use tlsn_utils.Mux.Stream as Stream
use tlsn_utils.Mux.Stream.{State, open_, send_closed, recv_closed, closed, Shared, update_state}
use tlsn_utils.Mux.Rtt.{Rtt}
use tlsn_utils.Mux.Connection.IdMap.{IdMap, lookup, remove, insert}

-- `woken` are the tasks that have been woken, in order.
pub record Registry : Type 0 where
  pub streams : IdMap ℕ
  pub inactive : IdMap ℕ
  pub owed_close : IdMap Frame
  pub slot_wakers : List ℕ
  pub config : Config
  pub rtt : Rtt
  pub cells : ℕ → Shared
  pub next_cell : ℕ
  pub handles : List (StreamId × ℕ)
  pub woken : List ℕ

abbrev pub write_cell : ℕ → Shared → Registry → Registry
write_cell addr s r = record r { cells = λ a. if a == addr then s else r.cells a }

abbrev pub active_slots : Registry → ℕ
active_slots r = length r.streams + length r.owed_close

-- `will_wake` compares wakers by their task.
abbrev pub has_waker : ℕ → List ℕ → Bool
has_waker w [] = false
has_waker w (v ∷ vs) = v == w || has_waker w vs

unfoldable pub register_slot_waker : Registry → ℕ → Registry
register_slot_waker r waker = record r {
  slot_wakers =
      if has_waker waker r.slot_wakers then r.slot_wakers else r.slot_wakers ++ (waker ∷ []);
}

unfoldable pub wake_slot_waiters : Registry → Registry
wake_slot_waiters r = record r { slot_wakers = []; woken = r.woken ++ r.slot_wakers }

abbrev pub to_wake : Option ℕ → List ℕ
to_wake none = []
to_wake (some w) = w ∷ []

-- The end of a stream's wait: `update_state`, and both wakers taken and woken.
unfoldable pub close_and_wake : State → ℕ → Registry → Registry
unfolding update_state
close_and_wake next addr r =
    let s = r.cells addr in
    record r {
      cells = λ a.
          if a == addr
          then record ((update_state s next).1) { reader = none; writer = none }
          else r.cells a;
      woken = r.woken ++ (to_wake s.reader ++ to_wake s.writer);
    }

abbrev pub reset_at : Registry → Option ℕ → Registry
reset_at r none = r
reset_at r (some addr) = close_and_wake closed addr r

unfoldable pub handle_peer_reset : Registry → StreamId → Registry
unfolding close_and_wake
handle_peer_reset r id = reset_at r (lookup id r.streams)

abbrev pub adopt_at : Registry → StreamId → Option ℕ → Option ℕ × Registry
adopt_at r id none = (none, r)
adopt_at r id (some addr) = (some addr, record r { inactive = remove id r.inactive })

unfoldable pub adopt_active : Registry → StreamId → Option ℕ × Registry
adopt_active r id = adopt_at r id (lookup id r.streams)

unfoldable pub try_claim_slot : Registry → StreamId → ℕ → Bool × Registry
try_claim_slot r id addr =
    if leb r.config.max_num_streams (active_slots r)
    then (false, r)
    else (true, record r { inactive = remove id r.inactive; streams = insert id addr r.streams })

-- A new cell, and its address. `now` is the time of the flow controller's start.
unfoldable pub make_shared : ℕ → Registry → ℕ × Registry
unfolding Stream.new
make_shared now r = (
  r.next_cell,
  record r {
    cells = λ a.
        if a == r.next_cell
        then Stream.new open_ default_credit default_credit r.config now
        else r.cells a;
    next_cell = suc r.next_cell;
  },
)

abbrev pub set_activated : ℕ → Registry → Registry
set_activated addr r = write_cell addr (record (r.cells addr) { activated = true }) r

unfoldable pub make_implicit_stream_shared : ℕ → Registry → ℕ × Registry
unfolding make_shared
make_implicit_stream_shared now r =
    let (addr, r') = make_shared now r in (addr, set_activated addr r')

abbrev pub add_handle : StreamId → ℕ × Registry → Registry
add_handle id (addr, r) = record r { handles = (id, addr) ∷ r.handles }

abbrev pub add_inactive : StreamId → ℕ × Registry → ℕ × Registry
add_inactive id (addr, r) = (addr, record r { inactive = insert id addr r.inactive })

abbrev pub stream_at : ℕ → StreamId → Registry → Option ℕ → Option ℕ → Registry
stream_at now id r (some addr) inactive = add_handle id (addr, r)
stream_at now id r none (some addr) = add_handle id (addr, r)
stream_at now id r none none = add_handle id (add_inactive id (make_shared now r))

-- `StreamRegistry::new_stream` for the identifier that the user's id hashes to.
unfoldable pub new_stream : ℕ → StreamId → Registry → Registry
unfolding make_shared
new_stream now id r = stream_at now id r (lookup id r.streams) (lookup id r.inactive)

-- `Arc::strong_count`: the references to a cell from the two maps and from the handles.
abbrev pub references : ℕ → List (StreamId × ℕ) → ℕ
references addr [] = 0
references addr ((id, a) ∷ rest) =
    if a == addr then suc (references addr rest) else references addr rest

abbrev pub strong_count : Registry → ℕ → ℕ
strong_count r addr =
    references addr r.streams + (references addr r.inactive + references addr r.handles)

-- `get(&stream_id).is_some_and(|s| Arc::strong_count(s) > 1)`
abbrev pub is_held : Registry → Option ℕ → Bool
is_held r none = false
is_held r (some addr) = ltb 1 (strong_count r addr)

-- The frame that closes a stream, by the state it was in.
abbrev pub close_frame : StreamId → State → Option Frame
close_frame id open_ = some (Frame.new (rst (data_header id 0)))
close_frame id recv_closed = some (Frame.new (fin (data_header id 0)))
close_frame id send_closed = none
close_frame id closed = none

abbrev pub owe : StreamId → Option Frame → Registry → Registry
owe id none r = wake_slot_waiters r
owe id (some frame) r = record r { owed_close = insert id frame r.owed_close }

abbrev pub drop_at : StreamId → Registry → Option ℕ → Registry
drop_at id r none = record r { inactive = remove id r.inactive }
drop_at id r (some addr) =
    owe id (close_frame id ((r.cells addr).state))
      (close_and_wake closed addr (record r { streams = remove id r.streams }))

-- `Active::on_drop_stream`
unfoldable pub on_drop_stream : StreamId → Registry → Registry
unfolding close_and_wake wake_slot_waiters
on_drop_stream id r =
    if is_held r (lookup id r.streams) || is_held r (lookup id r.inactive)
    then r
    else drop_at id r (lookup id r.streams)

-- `Stream::poll_activate`
pub data Activated : Type 0 where
  ready : Activated
  pending : Activated

abbrev pub claimed : ℕ → Bool → ℕ → Bool × Registry → Activated × ℕ × Registry
claimed waker sender_closed addr (false, r) =
    if sender_closed then (ready, addr, r) else (pending, addr, register_slot_waker r waker)
claimed waker sender_closed addr (true, r) = (
  ready,
  addr,
  write_cell addr (record (r.cells addr) { activated = true; syn_pending = true }) r,
)

abbrev pub adopt_or_claim : ℕ → Bool → StreamId → ℕ → Option ℕ × Registry → Activated × ℕ × Registry
adopt_or_claim waker sender_closed id addr (some addr', r) = (ready, addr', set_activated addr' r)
adopt_or_claim waker sender_closed id addr (none, r) =
    claimed waker sender_closed addr (try_claim_slot r id addr)

-- The second result is the address that the handle has from then on.
unfoldable pub poll_activate : ℕ → Bool → StreamId → ℕ → Registry → Activated × ℕ × Registry
unfolding adopt_active try_claim_slot register_slot_waker
poll_activate waker sender_closed id addr r =
    if (r.cells addr).activated
    then (ready, addr, r)
    else adopt_or_claim waker sender_closed id addr (adopt_active r id)
