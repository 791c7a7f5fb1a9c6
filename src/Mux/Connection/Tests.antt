-- ===== src/Mux/Connection/Tests.antt =====
-- mux/mux/src/connection/active.rs: the theorems at concrete connections.
use tlsn_utils.Base.{
  ℕ, ◌+◌, ◌*◌, ◌≤◌, ◌<◌, ◌≡◌, inr, refl, true, false, ◌&&◌, none, some, [], ◌∷◌, ◌++◌, length, All,
  arith,
}
use tlsn_utils.Mux.Config.{Config}
use tlsn_utils.Mux.Header as Header
use tlsn_utils.Mux.Header.{StreamId, data_, window_update_, contains, is_session}
use tlsn_utils.Mux.Frame.{Frame, close_stream, term}
use tlsn_utils.Mux.Chunks as Chunks
use tlsn_utils.Mux.Chunks.Laws.{IsValid}
use tlsn_utils.Mux.Stream as Stream
use tlsn_utils.Mux.Stream.{SenderPoll, Shared, open_}
use tlsn_utils.Mux.Connection.IdMap.{lookup, remove, insert, same_id, is_some}
use tlsn_utils.Mux.Connection.Registry.{
  Registry, active_slots, strong_count, new_stream, poll_activate, on_drop_stream,
}
use tlsn_utils.Mux.Connection.Registry.Links.{IsHeld}
use tlsn_utils.Mux.Connection.Registry.Invariant.{with_handle}
use tlsn_utils.Mux.Connection.Registry.Drop.{IsReaped, on_drop_stream-IsReaped}
use tlsn_utils.Mux.Connection.Active.{Active, on_data, on_window_update}
use tlsn_utils.Mux.Connection.Driver.{prepare_close}
use tlsn_utils.Mux.Connection.System.{new, create, activate, Reach, here, next}
use tlsn_utils.Mux.Connection.System.Safety.{Reach-bounded, Reach-shared}
use tlsn_utils.Mux.Connection.Delivery.{
  IsDelivered, on_data-IsDelivered, IsCredited, on_window_update-IsCredited,
}
use tlsn_utils.Mux.Connection.Write.{Sender}
use tlsn_utils.Mux.Connection.Driver.{CommandPoll, FramePoll}
use tlsn_utils.Mux.Connection.Shutdown as Shutdown
use tlsn_utils.Mux.Connection.Shutdown.{Attempt, ClosePoll, World}
use tlsn_utils.Mux.Connection.Shutdown.Finished.{poll-finishes}
use tlsn_utils.Mux.Connection.Shutdown.Flushed.{owed, IsFlushed, run-IsFlushed}
use tlsn_utils.Mux.Connection.Closing.Over.{IsOver, prepare_close-IsOver}

abbrev config : Config
config = record {
  max_connection_receive_window = some (1024 * 1024 * 1024);
  max_num_streams = 512;
  read_after_close = true;
  split_send_size = 16 * 1024;
  close_sync = false;
  keep_alive = false;
}

abbrev id : StreamId
id = record { b0 = 1; b1 = 2; b2 = 3; b3 = 4; b4 = 5; b5 = 6; b6 = 7; b7 = 8 }

abbrev cells : ℕ → Shared
unfolding Stream.new
cells a = Stream.new open_ 0 0 config 0

abbrev start : Active
start = new config 0 cells

-- A stream is created, and its handle claims a slot.
abbrev created : Active
created = record start { registry = new_stream 0 id start.registry }

abbrev activated : Active
activated = record created {
  registry = with_handle [] id [] (poll_activate 3 false id 0 created.registry);
}

created-handles : created.registry.handles ≡ (id, 0) ∷ []
unfolding new new_stream lookup
created-handles = refl

activated-Reach : Reach start activated
activated-Reach =
    next (next here (create 0 id start)) (activate 3 false [] [] id 0 created created-handles)

bounded_example :
    (length activated.registry.streams ≤ 512)
    × (length activated.registry.owed_close ≤ 1)
    × (active_slots activated.registry ≤ 512 + 1)
bounded_example = Reach-bounded config 0 cells activated activated-Reach

shared_example :
    ((j : StreamId)
      → (is_some (lookup j activated.registry.streams)
          && is_some (lookup j activated.registry.inactive))
        ≡ false)
    × All (IsHeld activated.registry.streams activated.registry.inactive) activated.registry.handles
shared_example = Reach-shared config 0 cells activated activated-Reach

abbrev data_frame : Frame
data_frame = record {
  header = record { tag = data_; flags = 0; stream_id = id; length = 2 };
  body = 7 ∷ 9 ∷ [];
}

stream_active : is_some (lookup id activated.registry.streams) ≡ true
unfolding new new_stream poll_activate lookup remove insert same_id Stream.new
stream_active = refl

activated-handles : activated.registry.handles ≡ (id, 0) ∷ []
unfolding new new_stream poll_activate lookup remove insert same_id Stream.new
activated-handles = refl

no_reset : contains 0 2 ≡ false
unfolding contains
no_reset = refl

no_session : is_session id ≡ false
unfolding is_session
no_session = refl

empty_buffer : IsValid ((activated.registry.cells 0).buffer)
unfolding new new_stream poll_activate lookup remove insert same_id Stream.new Chunks.new
empty_buffer = record { sum = refl; within = tt; behind = tt }

on_data_example : IsDelivered data_frame 0 activated (on_data 5 data_frame activated)
on_data_example =
    on_data-IsDelivered config 0 5 cells activated data_frame [] [] 0 activated-Reach
      activated-handles stream_active no_reset no_session (omega arith) empty_buffer

abbrev credit_frame : Frame
credit_frame = record {
  header = record { tag = window_update_; flags = 0; stream_id = id; length = 100 };
  body = [];
}

on_window_update_example :
    IsCredited credit_frame activated
      (lookup id activated.registry.streams)
      (on_window_update credit_frame activated)
on_window_update_example = on_window_update-IsCredited credit_frame activated

-- The same with the handle dropped.
abbrev released : Registry
released = record activated.registry { handles = [] }

released-streams : lookup id released.streams ≡ some 0
unfolding new new_stream poll_activate lookup remove insert same_id Stream.new
released-streams = refl

released-inactive : lookup id released.inactive ≡ none
unfolding new new_stream poll_activate lookup remove insert same_id Stream.new
released-inactive = refl

on_drop_stream_example :
    ((1 < strong_count released 0) → on_drop_stream id released ≡ released)
    × ((strong_count released 0 ≤ 1) → IsReaped id 0 released (on_drop_stream id released))
on_drop_stream_example = on_drop_stream-IsReaped id 0 released released-streams released-inactive

prepare_close_example : IsOver activated.registry (prepare_close activated.registry)
prepare_close_example = prepare_close-IsOver activated.registry

-- A closing that is polled twice: the socket takes one frame, then the rest and the peer's reply.
abbrev first_poll : World
first_poll = record {
  commands =
      CommandPoll.send_frame data_frame
      ∷ CommandPoll.dropped id
      ∷ CommandPoll.close id
      ∷ CommandPoll.pending
      ∷ [];
  attempts = Attempt.accepts ∷ Attempt.pending ∷ [];
  replies = [];
  close = ClosePoll.pending;
}

abbrev second_poll : World
second_poll = record {
  commands = [];
  attempts = Attempt.accepts ∷ Attempt.accepts ∷ Attempt.accepts ∷ Attempt.accepts ∷ [];
  replies = FramePoll.frame data_frame ∷ FramePoll.frame term ∷ [];
  close = ClosePoll.ready;
}

abbrev closing : Shutdown.Polled
closing =
    Shutdown.run (first_poll ∷ second_poll ∷ [])
      (Shutdown.new (credit_frame ∷ []) (record { sent = []; closed = false }) true false)

closing-finished :
    closing.outcome
    ≡ Shutdown.Outcome.finished
        (record { sent = credit_frame ∷ data_frame ∷ close_stream id ∷ term ∷ []; closed = true })
unfolding Shutdown.run Shutdown.run_from Shutdown.poll Shutdown.resume Shutdown.new Shutdown.drain
    Shutdown.flush Shutdown.flushed Shutdown.wait_reply Shutdown.close_socket term Header.term
closing-finished = refl

closing_example :
    IsFlushed
      ([] ++ ((credit_frame ∷ []) ++ (owed first_poll.commands ++ (term ∷ []))))
      false
      closing.outcome
      closing.closing
closing_example = run-IsFlushed first_poll (second_poll ∷ []) (credit_frame ∷ []) [] true false

-- A closing that finds the socket ready at once.
abbrev only_poll : World
only_poll = record {
  commands = CommandPoll.send_frame data_frame ∷ CommandPoll.no_streams ∷ [];
  attempts = Attempt.accepts ∷ Attempt.accepts ∷ Attempt.accepts ∷ [];
  replies = FramePoll.frame data_frame ∷ FramePoll.ended ∷ [];
  close = ClosePoll.ready;
}

finishes_example :
    (Shutdown.poll only_poll
      (Shutdown.new [] (record { sent = []; closed = false }) true false)).outcome
    ≡ Shutdown.Outcome.finished (record { sent = data_frame ∷ term ∷ []; closed = true })
finishes_example = poll-finishes only_poll [] [] true false refl refl (λ _. inr tt)

abbrev sender : Sender
sender = record { is_closed = false; poll = SenderPoll.ready; takes = true }
