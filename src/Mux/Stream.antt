-- ===== src/Mux/Stream.antt =====
-- mux/mux/src/connection/stream.rs: the state a stream shares with its connection, and what
-- `poll_write` does once `poll_activate` is past.
-- The channel to the connection is a parameter: what its `poll_ready` answers, and whether its
-- `start_send` succeeds. A waker is a number that names a task.
pub mod Laws
use tlsn_utils.Base.{
  ℕ, ◌-◌, ◌≡◌, Bool, true, false, not, Option, none, some, List, min, ◌==◌, length, take,
  if◌then◌else◌,
}
use tlsn_utils.Mux.Config.{Config}
use tlsn_utils.Mux.Header.{StreamId, syn}
use tlsn_utils.Mux.Frame.{Frame, data_frame}
use tlsn_utils.Mux.Chunks as Chunks
use tlsn_utils.Mux.Chunks.{Chunks}
use tlsn_utils.Mux.Flow as Flow
use tlsn_utils.Mux.Flow.{FlowController, to_u32, consume_send_window}

pub data State : Type 0 where
  open_ : State
  send_closed : State
  recv_closed : State
  closed : State

abbrev pub can_read : State → Bool
can_read open_ = true
can_read send_closed = true
can_read recv_closed = false
can_read closed = false

abbrev pub can_write : State → Bool
can_write open_ = true
can_write send_closed = false
can_write recv_closed = true
can_write closed = false

-- The new state that `update_state` stores.
abbrev pub next_state : State → State → State
next_state closed next = closed
next_state open_ next = next
next_state recv_closed closed = closed
next_state recv_closed open_ = recv_closed
next_state recv_closed recv_closed = recv_closed
next_state recv_closed send_closed = closed
next_state send_closed closed = closed
next_state send_closed open_ = send_closed
next_state send_closed recv_closed = closed
next_state send_closed send_closed = send_closed

pub record Shared : Type 0 where
  pub state : State
  pub flow_controller : FlowController
  pub buffer : Chunks
  pub reader : Option ℕ
  pub writer : Option ℕ
  pub activated : Bool
  pub syn_pending : Bool

unfoldable pub new : State → ℕ → ℕ → Config → ℕ → Shared
new initial_state receive_window send_window config now = record {
  state = initial_state;
  flow_controller = Flow.new receive_window send_window config now;
  buffer = Chunks.new;
  reader = none;
  writer = none;
  activated = false;
  syn_pending = false;
}

-- The result is the state before the update.
unfoldable pub update_state : Shared → State → State × Shared
update_state s next = (s.state, record s { state = next_state s.state next })

-- `sender.poll_ready`
pub data SenderPoll : Type 0 where
  ready : SenderPoll
  pending : SenderPoll
  gone : SenderPoll

-- `write_zero` is the error of that kind; `panicked` is an overflow of the window or the failed
-- `expect`.
pub data WritePoll : Type 0 where
  pending : WritePoll
  write_zero : WritePoll
  wrote : ℕ → WritePoll
  panicked : WritePoll

-- The bytes that one call takes.
abbrev pub write_size : Config → Shared → ℕ → ℕ
write_size config s len =
    min (min s.flow_controller.send_window (to_u32 len)) (to_u32 config.split_send_size)

abbrev with_syn : Bool → Frame → Frame
with_syn false f = f
with_syn true f = record f { header = syn f.header }

-- `start_send` and what follows it.
abbrev send_frame : Bool → ℕ → Shared → Option Frame → WritePoll × Shared × Option Frame
send_frame started n s none = (panicked, s, none)
send_frame started n s (some frame) =
    if started
    then (wrote n, record s { syn_pending = false }, some (with_syn s.syn_pending frame))
    else (write_zero, s, none)

abbrev send_body :
    Bool → StreamId → Shared → List ℕ → Option FlowController → WritePoll × Shared × Option Frame
send_body started id s body none = (panicked, s, none)
send_body started id s body (some controller) =
    send_frame started (length body) (record s { flow_controller = controller })
      (data_frame id body)

-- `poll_write` from `self.sender.poll_ready` on, which stands behind `poll_activate`. The third result is
-- the frame that was sent.
unfoldable pub write_activated :
    SenderPoll → Bool → ℕ → Config → StreamId → Shared → List ℕ → WritePoll × Shared × Option Frame
write_activated SenderPoll.pending started waker config id s buf = (pending, s, none)
write_activated gone started waker config id s buf = (write_zero, s, none)
write_activated ready started waker config id s buf =
    if not (can_write s.state)
    then (write_zero, s, none)
    else if s.flow_controller.send_window == 0
    then (pending, record s { writer = some waker }, none)
    else send_body started id s (take (write_size config s (length buf)) buf)
        (consume_send_window s.flow_controller (write_size config s (length buf)))
