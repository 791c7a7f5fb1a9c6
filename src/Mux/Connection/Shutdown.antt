-- ===== src/Mux/Connection/Shutdown.antt =====
-- mux/mux/src/connection/closing.rs: `Closing`, the future that drains the streams' channels, flushes
-- what is owed to the peer, waits for its reply and closes the socket. What one poll finds at the
-- channels and at the socket is its input; the frames that the socket took are recorded in `sent`.
pub mod Flushed
pub mod Finished
use tlsn_utils.Base.{Bool, true, false, Option, none, some, List, [], ◌∷◌, ◌++◌, if◌then◌else◌}
use tlsn_utils.Mux.Header.{Tag, data_, window_update_, ping_, go_away_}
use tlsn_utils.Mux.Frame.{Frame, close_stream, term}
use tlsn_utils.Mux.Connection.Active.{ConnectionError, io}
use tlsn_utils.Mux.Connection.Driver.{CommandPoll, FramePoll}

pub data State : Type 0 where
  closing_stream_receiver : State
  draining_stream_receiver : State
  flushing_pending_frames : State
  waiting_for_reply : State
  closing_socket : State

pub record Socket : Type 0 where
  pub sent : List Frame
  pub closed : Bool

pub record Closing : Type 0 where
  pub state : State
  pub receivers_closed : Bool
  pub pending_frames : List Frame
  pub socket : Option Socket
  pub wait_for_reply : Bool
  pub keep_alive : Bool

-- What a round of the flush finds: the socket is not ready, `poll_ready` fails, `start_send` fails, or
-- the socket takes a frame.
pub data Attempt : Type 0 where
  pending : Attempt
  failed : Attempt
  refuses : Attempt
  accepts : Attempt

-- What `socket.poll_close` answers.
pub data ClosePoll : Type 0 where
  pending : ClosePoll
  failed : ClosePoll
  ready : ClosePoll

-- What a poll finds; where a list ends the answer is `Pending`.
pub record World : Type 0 where
  pub commands : List CommandPoll
  pub attempts : List Attempt
  pub replies : List FramePoll
  pub close : ClosePoll

pub data Outcome : Type 0 where
  pending : Outcome
  finished : Socket → Outcome
  failed : ConnectionError → Outcome
  panicked : Outcome

pub record Polled : Type 0 where
  pub outcome : Outcome
  pub closing : Closing

unfoldable pub new : List Frame → Socket → Bool → Bool → Closing
new pending_frames socket wait_for_reply keep_alive = record {
  state = State.closing_stream_receiver;
  receivers_closed = false;
  pending_frames = pending_frames;
  socket = some socket;
  wait_for_reply = wait_for_reply;
  keep_alive = keep_alive;
}

-- The rounds of `DrainingStreamReceiver`: what the channels still hold, and the last frame.
unfoldable pub drain : List CommandPoll → List Frame → List Frame
drain [] frames = frames ++ (term ∷ [])
drain (CommandPoll.send_frame f ∷ rest) frames = drain rest (frames ++ (f ∷ []))
drain (CommandPoll.close id ∷ rest) frames = drain rest (frames ++ (close_stream id ∷ []))
drain (CommandPoll.dropped _ ∷ rest) frames = drain rest frames
drain (CommandPoll.no_streams ∷ _) frames = frames ++ (term ∷ [])
drain (CommandPoll.pending ∷ _) frames = frames ++ (term ∷ [])

abbrev pub to : Outcome → Closing → Polled
to outcome c = record { outcome = outcome; closing = c }

abbrev pub give_back : Socket → Closing → Polled
give_back socket c = to (Outcome.finished socket) (record c { socket = none })

-- `ClosingSocket`
unfoldable pub close_socket : Bool → ClosePoll → Socket → Closing → Polled
close_socket true _ socket c = give_back socket c
close_socket false ClosePoll.ready socket c = give_back (record socket { closed = true }) c
close_socket false ClosePoll.pending _ c = to Outcome.pending c
close_socket false ClosePoll.failed _ c = to (Outcome.failed io) c

abbrev pub at_close : ClosePoll → Socket → Closing → Polled
at_close close socket c =
    close_socket c.keep_alive close socket (record c { state = State.closing_socket })

abbrev pub is_go_away : Tag → Bool
is_go_away go_away_ = true
is_go_away data_ = false
is_go_away window_update_ = false
is_go_away ping_ = false

-- `WaitingForReply`
unfoldable pub wait_reply : List FramePoll → ClosePoll → Socket → Closing → Polled
wait_reply [] _ _ c = to Outcome.pending c
wait_reply (FramePoll.frame f ∷ rest) close socket c =
    if is_go_away f.header.tag then at_close close socket c else wait_reply rest close socket c
wait_reply (FramePoll.failed ∷ _) _ _ c = to (Outcome.failed io) c
wait_reply (FramePoll.ended ∷ _) close socket c = at_close close socket c
wait_reply (FramePoll.pending ∷ _) _ _ c = to Outcome.pending c

-- The frames are flushed, and `wait_for_reply` says where to go on.
unfoldable pub flushed : Bool → World → Socket → Closing → Polled
flushed true w socket c =
    wait_reply w.replies w.close socket (record c { state = State.waiting_for_reply })
flushed false w socket c = at_close w.close socket c

abbrev pub with_frames : List Frame → Socket → Closing → Closing
with_frames frames socket c = record c { pending_frames = frames; socket = some socket }

-- `FlushingPendingFrames`: a round for each attempt.
unfoldable pub flush : World → List Attempt → List Frame → Socket → Closing → Polled
flush w [] frames socket c = to Outcome.pending (with_frames frames socket c)
flush w (Attempt.pending ∷ _) frames socket c = to Outcome.pending (with_frames frames socket c)
flush w (Attempt.failed ∷ _) frames socket c = to (Outcome.failed io) (with_frames frames socket c)
flush w (Attempt.refuses ∷ _) [] socket c =
    flushed c.wait_for_reply w socket (with_frames [] socket c)
flush w (Attempt.refuses ∷ _) (_ ∷ frames) socket c =
    to (Outcome.failed io) (with_frames frames socket c)
flush w (Attempt.accepts ∷ _) [] socket c =
    flushed c.wait_for_reply w socket (with_frames [] socket c)
flush w (Attempt.accepts ∷ attempts) (f ∷ frames) socket c =
    flush w attempts frames (record socket { sent = socket.sent ++ (f ∷ []) }) c

abbrev pub drained : World → Closing → Closing
drained w c = record c {
  state = State.flushing_pending_frames;
  pending_frames = drain w.commands c.pending_frames;
}

-- The rounds that start in a state, with the socket, which is there until it is given back.
unfoldable pub resume : World → State → Option Socket → Closing → Polled
resume w State.closing_stream_receiver (some socket) c =
    flush w w.attempts (drain w.commands c.pending_frames) socket
      (drained w (record c { receivers_closed = true }))
resume w State.draining_stream_receiver (some socket) c =
    flush w w.attempts (drain w.commands c.pending_frames) socket (drained w c)
resume w State.flushing_pending_frames (some socket) c =
    flush w w.attempts c.pending_frames socket c
resume w State.waiting_for_reply (some socket) c = wait_reply w.replies w.close socket c
resume w State.closing_socket (some socket) c = close_socket c.keep_alive w.close socket c
resume w State.closing_stream_receiver none c =
    to Outcome.panicked (drained w (record c { receivers_closed = true }))
resume w State.draining_stream_receiver none c = to Outcome.panicked (drained w c)
resume _ State.flushing_pending_frames none c = to Outcome.panicked c
resume _ State.waiting_for_reply none c = to Outcome.panicked c
resume w State.closing_socket none c = to Outcome.panicked c

unfoldable pub poll : World → Closing → Polled
poll w c = resume w c.state c.socket c

-- The task that owns the future polls it again as long as it is pending.
unfoldable pub run_from : List World → Outcome → Closing → Polled
unfolding poll
run_from [] outcome c = to outcome c
run_from (w ∷ worlds) Outcome.pending c = run_from worlds (poll w c).outcome (poll w c).closing
run_from (_ ∷ _) (Outcome.finished socket) c = to (Outcome.finished socket) c
run_from (_ ∷ _) (Outcome.failed e) c = to (Outcome.failed e) c
run_from (_ ∷ _) Outcome.panicked c = to Outcome.panicked c

unfoldable pub run : List World → Closing → Polled
run worlds c = run_from worlds Outcome.pending c
