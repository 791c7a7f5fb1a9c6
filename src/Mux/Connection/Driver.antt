-- ===== src/Mux/Connection/Driver.antt =====
-- mux/mux/src/connection/active.rs: one round of the loop of `Active::poll`, and the end of an active
-- connection. A round ends by starting the next one (`again`), by waiting, or with an error.
pub mod Handlers
pub mod Writes
pub mod Commands
pub mod Invariant
use tlsn_utils.Base.{
  ℕ, zero, suc, ◌+◌, ◌%◌, ◌^◌, ◌≤◌, ◌<◌, ◌≡◌, Bool, true, false, not, ◌&&◌, ◌||◌, Option, none,
  some, List, [], ◌∷◌, ◌++◌, ltb, leb, ◌==◌, if◌then◌else◌, length,
}
use tlsn_utils.Mux.Header.{Header, Tag, data_, window_update_, ping_, go_away_, StreamId, ack}
use tlsn_utils.Mux.Header as Header
use tlsn_utils.Mux.Frame as Frame
use tlsn_utils.Mux.Frame.{Frame, close_stream}
use tlsn_utils.Mux.Stream.{State, recv_closed}
use tlsn_utils.Mux.Stream as Stream
use tlsn_utils.Mux.Rtt.{Rtt, Action, nothing, pong, terminate, next_ping}
use tlsn_utils.Mux.Connection.IdMap.{IdMap, remove, is_some}
use tlsn_utils.Mux.Connection.Registry.{
  Registry, to_wake, wake_slot_waiters, close_and_wake, on_drop_stream,
}
use tlsn_utils.Mux.Connection.Active.{
  Active, ConnectionError, io, Handled, OnFrame, handled, gone_away, on_frame,
}

-- What `stream_receivers.poll_next` answers: a frame to send, a close, the end of a stream's channel, no
-- channel at all, or nothing yet.
pub data CommandPoll : Type 0 where
  send_frame : Frame → CommandPoll
  close : StreamId → CommandPoll
  dropped : StreamId → CommandPoll
  no_streams : CommandPoll
  pending : CommandPoll

-- What `socket.poll_next` answers.
pub data FramePoll : Type 0 where
  frame : Frame → FramePoll
  failed : FramePoll
  ended : FramePoll
  pending : FramePoll

-- `new_receivers` tells whether the handle has queued the channel of a new stream.
pub record Inputs : Type 0 where
  pub waker : ℕ
  pub new_receivers : Bool
  pub socket_ready : Bool
  pub flush_fails : Bool
  pub now : ℕ
  pub sent_at : ℕ
  pub nonce : ℕ
  pub elapsed : ℕ → ℕ
  pub command : CommandPoll
  pub incoming : FramePoll

pub data Round : Type 0 where
  again : Active → Round
  wait : Active → Round
  stop : ConnectionError → Active → Round
  panicked : Round

-- `while let Poll::Ready(Some(receiver)) = …`, which wakes a task that waits for streams.
abbrev pub adopt_receivers : Bool → Active → Active
adopt_receivers false a = a
adopt_receivers true a = record a {
  no_streams_waker = none;
  registry = record a.registry { woken = a.registry.woken ++ to_wake a.no_streams_waker };
}

abbrev pub start_send : Frame → Active → Active
start_send f a = record a { sent = a.sent ++ (f ∷ []) }

abbrev record_out : Frame → Tag → Active → Active
record_out f data_ a = record a { data_bytes_out = (a.data_bytes_out + f.header.length) % 2 ^ 64 }
record_out f window_update_ a = a
record_out f ping_ a = a
record_out f go_away_ a = a

abbrev pong_frame : ℕ → Frame
pong_frame nonce = Frame.new (ack (Header.ping nonce))

abbrev send_pending_write : Option Frame → Active → Option Active
send_pending_write none a = none
send_pending_write (some f) a =
    some (start_send f (record_out f f.header.tag (record a { pending_write_frame = none })))

abbrev send_pong : Option ℕ → Active → Option Active
send_pong none a = send_pending_write a.pending_write_frame a
send_pong (some nonce) a = some (start_send (pong_frame nonce) (record a { pending_pong = none }))

abbrev send_terminate : Option Frame → Active → Option Active
send_terminate none a = send_pong a.pending_pong a
send_terminate (some f) a = some (start_send f (record a { pending_terminate = none }))

abbrev send_ping : Option Frame × Rtt → Active → Option Active
send_ping (none, rtt) a = send_terminate a.pending_terminate a
send_ping (some f, rtt) a =
    some (start_send f (record a { registry = record a.registry { rtt = rtt } }))

-- The part under `socket.poll_ready`: `some` where a frame was handed to the socket.
unfoldable pub write_frame : Inputs → Active → Option Active
unfolding next_ping
write_frame i a =
    if i.socket_ready then send_ping (next_ping a.registry.rtt i.now i.sent_at i.nonce) a else none

-- The part that moves an owed close into the outbound queue.
abbrev stage_first : IdMap Frame → Active → Option Active
stage_first [] a = none
stage_first ((id, f) ∷ rest) a = some (record a {
  pending_write_frame = some f;
  registry = wake_slot_waiters (record a.registry { owed_close = remove id a.registry.owed_close });
})

unfoldable pub stage_owed : Active → Option Active
unfolding wake_slot_waiters
stage_owed a = if is_some a.pending_write_frame then none else stage_first a.registry.owed_close a

-- The part that takes a command. The flag tells whether the loop starts again.
abbrev by_command : ℕ → CommandPoll → Active → Bool × Active
by_command waker (send_frame f) a = (true, record a { pending_write_frame = some f })
by_command waker (close id) a = (true, record a { pending_write_frame = some (close_stream id) })
by_command waker (dropped id) a = (true, record a { registry = on_drop_stream id a.registry })
by_command waker no_streams a = (false, record a { no_streams_waker = some waker })
by_command waker CommandPoll.pending a = (false, a)

unfoldable pub take_command : ℕ → CommandPoll → Active → Bool × Active
take_command waker command a =
    if is_some a.pending_write_frame then (false, a) else by_command waker command a

abbrev pub act : Action → Active → Active
act nothing a = a
act (pong nonce) a = record a { pending_pong = some nonce }
act (terminate f) a = record a { terminating = true; pending_terminate = some f }

abbrev after_frame : Active → OnFrame → Round
after_frame a (handled none) = panicked
after_frame a (handled (some (action, a'))) = again (act action a')
after_frame a (gone_away e) = stop e a

-- The part that reads the socket.
unfoldable pub read_frame : Inputs → FramePoll → Active → Round
unfolding on_frame
read_frame i (frame f) a = after_frame a (on_frame i.elapsed i.now f a)
read_frame i failed a = stop io a
read_frame i ended a = stop ConnectionError.closed a
read_frame i FramePoll.pending a = wait a

abbrev after_command : Inputs → Bool × Active → Round
after_command i (true, a) = again a
after_command i (false, a) = read_frame i i.incoming a

abbrev after_owed : Inputs → Active → Option Active → Round
after_owed i a (some a') = again a'
after_owed i a none = after_command i (take_command i.waker i.command a)

abbrev after_write : Inputs → Active → Option Active → Round
after_write i a (some a') = again a'
after_write i a none = if i.flush_fails then stop io a else after_owed i a (stage_owed a)

unfoldable pub poll_round : Inputs → Active → Round
unfolding write_frame stage_owed take_command read_frame
poll_round i a = let a' = adopt_receivers i.new_receivers a in after_write i a' (write_frame i a')

-- The loop over the streams of `prepare_close` and `drop_all_streams`, in the order of a list.
unfoldable pub close_all : State → IdMap ℕ → Registry → Registry
close_all next [] r = r
close_all next ((id, addr) ∷ rest) r = close_all next rest (close_and_wake next addr r)

-- The registry's part of `prepare_close` and of `drop_all_streams`; both close the streams' channels
-- first.
unfoldable pub prepare_close : Registry → Registry
unfolding close_all wake_slot_waiters
prepare_close r =
    wake_slot_waiters (close_all recv_closed r.inactive (close_all recv_closed r.streams r))

unfoldable pub drop_all_streams : Registry → Registry
unfolding close_all wake_slot_waiters
drop_all_streams r =
    let emptied = record r { streams = []; inactive = [] } in
    wake_slot_waiters
      (close_all Stream.closed r.inactive (close_all Stream.closed r.streams emptied))

abbrev to_frames : Option Frame → List Frame
to_frames none = []
to_frames (some f) = f ∷ []

abbrev pong_frames : Option ℕ → List Frame
pong_frames none = []
pong_frames (some nonce) = pong_frame nonce ∷ []

abbrev values : IdMap Frame → List Frame
values [] = []
values ((id, f) ∷ rest) = f ∷ values rest

-- The order in which the frames are sent while the connection closes.
unfoldable pub take_pending_frames : Active → List Frame
take_pending_frames a =
    to_frames a.pending_terminate
    ++ (pong_frames a.pending_pong
        ++ (to_frames a.pending_write_frame ++ values a.registry.owed_close))
