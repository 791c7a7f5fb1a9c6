-- ===== src/Mux/Connection/Active.antt =====
-- mux/mux/src/connection/active.rs: `Active`, the driver of an open connection: the handlers of incoming
-- frames, and one round of the loop of `poll`. What the round finds at the socket, at the streams'
-- channels and at the clock are its inputs; the frames it hands to the socket are recorded in `sent`.
use tlsn_utils.Base.{
  ℕ, ◌+◌, ◌%◌, ◌^◌, Bool, not, ◌||◌, Option, none, some, List, ◌++◌, ltb, leb, ◌==◌, if◌then◌else◌,
  length,
}
use tlsn_utils.Mux.Config.{default_credit}
use tlsn_utils.Mux.Header.{
  Tag, data_, window_update_, ping_, go_away_, StreamId, connection_id, is_session, contains,
  syn_flag, ack_flag, fin_flag, rst_flag,
}
use tlsn_utils.Mux.Frame.{Frame, protocol_error}
use tlsn_utils.Mux.Flow.{FlowController, consume_receive_window, increase_send_window_by}
use tlsn_utils.Mux.Chunks.{push}
use tlsn_utils.Mux.Stream.{Shared, recv_closed, update_state}
use tlsn_utils.Mux.Rtt.{Action, nothing, pong, terminate, handle_pong}
use tlsn_utils.Mux.Connection.IdMap.{lookup, remove, insert, same_id, is_some}
use tlsn_utils.Mux.Connection.Registry.{
  Registry, write_cell, set_activated, to_wake, handle_peer_reset, make_implicit_stream_shared,
}

pub record Active : Type 0 where
  pub registry : Registry
  pub data_bytes_in : ℕ
  pub data_bytes_out : ℕ
  pub pending_pong : Option ℕ
  pub pending_terminate : Option Frame
  pub terminating : Bool
  pub pending_write_frame : Option Frame
  pub no_streams_waker : Option ℕ
  pub sent : List Frame

-- `io` stands for the errors of the socket and of the frames it carries.
pub data ConnectionError : Type 0 where
  closed : ConnectionError
  peer_protocol_error : ConnectionError
  peer_internal_error : ConnectionError
  peer_error : ℕ → ConnectionError
  io : ConnectionError

unfoldable pub go_away_error : ℕ → ConnectionError
go_away_error code =
    if code == 0
    then ConnectionError.closed
    else if code == 1
    then peer_protocol_error
    else if code == 2
    then peer_internal_error
    else peer_error code

-- `Frame::body_len`, a `u32`
abbrev pub body_len : Frame → ℕ
body_len f = length f.body % 2 ^ 32

-- A handler's action and the new state; `none` is a panic.
abbrev pub Handled : Type 0
Handled = Option (Action × Active)

-- What a stream's state is once it has taken the body of a data frame, with the window `controller`.
abbrev pub received : Frame → Shared → FlowController → Shared
received f s controller =
    let s' = if contains f.header.flags fin_flag then (update_state s recv_closed).1 else s in
    record s' { flow_controller = controller; buffer = push s'.buffer f.body; reader = none }

abbrev pub delivered : Frame → ℕ → Active → Option FlowController → Handled
delivered f addr a none = none
delivered f addr a (some controller) =
    let r = a.registry in
    some (
      nothing,
      record a {
        registry = record (write_cell addr (received f (r.cells addr) controller) r) {
          woken = r.woken ++ to_wake (r.cells addr).reader;
        };
        data_bytes_in = (a.data_bytes_in + body_len f) % 2 ^ 64;
      },
    )

-- The end of `on_data`, for a stream in the cell `addr`.
unfoldable pub deliver : Frame → ℕ → Active → Handled
unfolding update_state
deliver f addr a =
    let s = a.registry.cells addr in
    if ltb s.flow_controller.receive_window (body_len f)
    then some (terminate protocol_error, a)
    else delivered f addr a (consume_receive_window s.flow_controller (body_len f))

-- The cell of a stream that the peer opens: that of the local handles that wait with it, or a new one.
abbrev pub open_cell : ℕ → StreamId → Registry → Option ℕ → ℕ × Registry
open_cell now id r (some addr) =
    (addr, set_activated addr (record r { inactive = remove id r.inactive }))
open_cell now id r none = make_implicit_stream_shared now r

abbrev pub add_stream : StreamId → ℕ × Registry → ℕ × Registry
add_stream id (addr, r) = (addr, record r { streams = insert id addr r.streams })

unfoldable pub open_stream : ℕ → StreamId → Registry → ℕ × Registry
unfolding make_implicit_stream_shared
open_stream now id r = add_stream id (open_cell now id r (lookup id r.inactive))

abbrev pub deliver_in : Frame → Active → ℕ × Registry → Handled
deliver_in f a (addr, r) = deliver f addr (record a { registry = r })

-- `on_data` past the tests of the header, for the cell of an active stream, if there is one.
abbrev pub data_at : ℕ → Frame → Active → Option ℕ → Handled
data_at now f a (some addr) = deliver f addr a
data_at now f a none =
    if not (contains f.header.flags syn_flag)
    then some (nothing, a)
    else if ltb default_credit (body_len f)
    then some (terminate protocol_error, a)
    else if leb a.registry.config.max_num_streams (length a.registry.streams)
    then some (terminate protocol_error, a)
    else deliver_in f a (open_stream now f.header.stream_id a.registry)

unfoldable pub on_data : ℕ → Frame → Active → Handled
unfolding handle_peer_reset open_stream deliver
on_data now f a =
    if contains f.header.flags rst_flag
    then some (nothing, record a { registry = handle_peer_reset a.registry f.header.stream_id })
    else if is_session f.header.stream_id
    then some (terminate protocol_error, a)
    else data_at now f a (lookup f.header.stream_id a.registry.streams)

abbrev pub credited : ℕ → Active → Option FlowController → Handled
credited addr a none = none
credited addr a (some controller) =
    let r = a.registry in
    let s = r.cells addr in
    some (
      nothing,
      record a {
        registry =
            record (write_cell addr (record s { flow_controller = controller; writer = none }) r) {
              woken = r.woken ++ to_wake s.writer;
            };
      },
    )

abbrev pub credit_at : Frame → Active → Option ℕ → Handled
credit_at f a none = some (nothing, a)
credit_at f a (some addr) =
    credited addr a
      (increase_send_window_by ((a.registry.cells addr).flow_controller) f.header.length)

unfoldable pub on_window_update : Frame → Active → Handled
on_window_update f a = credit_at f a (lookup f.header.stream_id a.registry.streams)

unfoldable pub on_ping : (ℕ → ℕ) → ℕ → Frame → Active → Handled
on_ping elapsed now f a =
    let id = f.header.stream_id in
    let r = a.registry in
    if contains f.header.flags ack_flag
    then (let (action, rtt) = handle_pong r.rtt f.header.length elapsed now in
        some (action, record a { registry = record r { rtt = rtt } }))
    else if same_id id connection_id || is_some (lookup id r.streams)
    then some (pong f.header.length, a)
    else some (nothing, a)

pub data OnFrame : Type 0 where
  handled : Handled → OnFrame
  gone_away : ConnectionError → OnFrame

abbrev pub by_tag : (ℕ → ℕ) → ℕ → Frame → Active → Tag → OnFrame
by_tag elapsed now f a data_ = handled (on_data now f a)
by_tag elapsed now f a window_update_ = handled (on_window_update f a)
by_tag elapsed now f a ping_ = handled (on_ping elapsed now f a)
by_tag elapsed now f a go_away_ = gone_away (go_away_error f.header.length)

unfoldable pub on_frame : (ℕ → ℕ) → ℕ → Frame → Active → OnFrame
on_frame elapsed now f a =
    if a.terminating then handled (some (nothing, a)) else by_tag elapsed now f a f.header.tag
