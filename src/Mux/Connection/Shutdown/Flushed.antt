-- ===== src/Mux/Connection/Shutdown/Flushed.antt =====
-- mux/mux/src/connection/closing.rs: what the socket has been given, in which order, at each point of
-- the closing, however often the future is polled.
use mathlib.Core.List.{append-nil, append_assoc}
use tlsn_utils.Base.{
  ◌≡◌, refl, sym, ap, ◌∙◌, Bool, true, false, not, Option, none, some, List, [], ◌∷◌, ◌++◌,
  if◌then◌else◌,
}
use tlsn_utils.Mux.Frame.{Frame, close_stream, term}
use tlsn_utils.Mux.Connection.Driver.{CommandPoll, FramePoll}
use tlsn_utils.Mux.Connection.Shutdown.{
  State, Socket, Closing, Attempt, ClosePoll, World, Outcome, Polled, new, drain, close_socket,
  is_go_away, wait_reply, flushed, flush, resume, poll, run_from, run,
}

-- The frames that the commands of the streams stand for, up to the first empty answer.
abbrev pub owed : List CommandPoll → List Frame
owed [] = []
owed (CommandPoll.send_frame f ∷ rest) = f ∷ owed rest
owed (CommandPoll.close id ∷ rest) = close_stream id ∷ owed rest
owed (CommandPoll.dropped _ ∷ rest) = owed rest
owed (CommandPoll.no_streams ∷ _) = []
owed (CommandPoll.pending ∷ _) = []

pub drain-owed :
    (cs : List CommandPoll) (q : List Frame) → drain cs q ≡ q ++ (owed cs ++ (term ∷ []))
unfolding drain
drain-owed [] q = refl
drain-owed (CommandPoll.send_frame f ∷ rest) q =
    drain-owed rest (q ++ (f ∷ [])) ∙ append_assoc q (f ∷ []) (owed rest ++ (term ∷ []))
drain-owed (CommandPoll.close id ∷ rest) q =
    drain-owed rest (q ++ (close_stream id ∷ []))
    ∙ append_assoc q (close_stream id ∷ []) (owed rest ++ (term ∷ []))
drain-owed (CommandPoll.dropped _ ∷ rest) q = drain-owed rest q
drain-owed (CommandPoll.no_streams ∷ _) q = refl
drain-owed (CommandPoll.pending ∷ _) q = refl

-- The frames that the socket has are the first of `plan`.
pub record IsPart (plan : List Frame) (sent : List Frame) : Type 0 where
  pub rest : List Frame
  pub joined : sent ++ rest ≡ plan

-- Where the future stands between two polls: in `flushing_pending_frames` the socket has what is no
-- longer pending, afterwards it has all of `plan`, and it is not closed.
abbrev pub IsDue : List Frame → State → List Frame → List Frame → Type 0
IsDue plan State.closing_stream_receiver _ _ = ⊥
IsDue plan State.draining_stream_receiver _ _ = ⊥
IsDue plan State.flushing_pending_frames sent frames = sent ++ frames ≡ plan
IsDue plan State.waiting_for_reply sent frames = sent ≡ plan
IsDue plan State.closing_socket sent frames = sent ≡ plan

abbrev pub Going : List Frame → Bool → State → List Frame → Option Socket → Bool → Type 0
Going plan keep state frames none k = ⊥
Going plan keep state frames (some socket) k =
    IsDue plan state socket.sent frames × (socket.closed ≡ false) × (k ≡ keep)

abbrev pub Part : List Frame → Option Socket → Type 0
Part plan none = ⊥
Part plan (some socket) = IsPart plan socket.sent

-- What a poll answers: `plan` is what the socket must be given, `keep` says whether it stays open.
abbrev pub IsFlushed : List Frame → Bool → Outcome → Closing → Type 0
IsFlushed plan keep Outcome.pending c =
    Going plan keep c.state c.pending_frames c.socket c.keep_alive
IsFlushed plan keep (Outcome.finished socket) _ = (socket.sent ≡ plan) × (socket.closed ≡ not keep)
IsFlushed plan keep (Outcome.failed _) c = Part plan c.socket
IsFlushed plan keep Outcome.panicked _ = ⊥

abbrev AllFlushed : List Frame → Bool → Polled → Type 0
AllFlushed plan keep p = IsFlushed plan keep p.outcome p.closing

-- The socket has all of `plan`, and `c` holds it.
record IsSent (plan : List Frame) (keep : Bool) (socket : Socket) (c : Closing) : Type 0 where
  pub held : c.socket ≡ some socket
  pub all : socket.sent ≡ plan
  pub is_open : socket.closed ≡ false
  pub keeps : c.keep_alive ≡ keep

module _ (plan : List Frame) (keep : Bool) where
  IsSent-Part : (socket : Socket) (c : Closing) → IsSent plan keep socket c → Part plan c.socket
  IsSent-Part socket c s =
      rw (s.held) (record { rest = []; joined = append-nil (socket.sent) ∙ s.all })

  close_socket-IsFlushed :
      (k : Bool) (close : ClosePoll) (socket : Socket) (c : Closing)
      → k ≡ keep
      → IsSent plan keep socket c
      → Going plan keep c.state c.pending_frames c.socket c.keep_alive
      → AllFlushed plan keep (close_socket k close socket c)
  unfolding close_socket
  close_socket-IsFlushed true close socket c e s g = (s.all, s.is_open ∙ ap not e)
  close_socket-IsFlushed false ClosePoll.ready socket c e s g = (s.all, ap not e)
  close_socket-IsFlushed false ClosePoll.pending socket c e s g = g
  close_socket-IsFlushed false ClosePoll.failed socket c e s g = IsSent-Part socket c s

  at_close-IsFlushed :
      (close : ClosePoll) (socket : Socket) (c : Closing)
      → IsSent plan keep socket c
      → AllFlushed plan keep
          (close_socket c.keep_alive close socket (record c { state = State.closing_socket }))
  at_close-IsFlushed close socket c s =
      close_socket-IsFlushed c.keep_alive close socket (record c { state = State.closing_socket })
        s.keeps (record { held = s.held; all = s.all; is_open = s.is_open; keeps = s.keeps })
        (rw (s.held) (s.all, s.is_open, s.keeps))

  wait_reply-IsFlushed :
      (replies : List FramePoll) (close : ClosePoll) (socket : Socket) (c : Closing)
      → IsSent plan keep socket c
      → Going plan keep c.state c.pending_frames c.socket c.keep_alive
      → AllFlushed plan keep (wait_reply replies close socket c)
  unfolding wait_reply
  wait_reply-IsFlushed [] close socket c s g = g
  wait_reply-IsFlushed (FramePoll.frame f ∷ rest) close socket c s g =
      elim (is_go_away f.header.tag)
        as (λ b. AllFlushed plan keep (
          if b
          then close_socket c.keep_alive close socket (record c { state = State.closing_socket })
          else wait_reply rest close socket c)) [
            | true ↦ at_close-IsFlushed close socket c s
            | false ↦ wait_reply-IsFlushed rest close socket c s g
          ]
  wait_reply-IsFlushed (FramePoll.failed ∷ rest) close socket c s g = IsSent-Part socket c s
  wait_reply-IsFlushed (FramePoll.ended ∷ rest) close socket c s g =
      at_close-IsFlushed close socket c s
  wait_reply-IsFlushed (FramePoll.pending ∷ rest) close socket c s g = g

  flushed-IsFlushed :
      (wait : Bool) (w : World) (socket : Socket) (c : Closing)
      → IsSent plan keep socket c
      → AllFlushed plan keep (flushed wait w socket c)
  unfolding flushed
  flushed-IsFlushed false w socket c s = at_close-IsFlushed w.close socket c s
  flushed-IsFlushed true w socket c s =
      wait_reply-IsFlushed w.replies w.close socket (record c { state = State.waiting_for_reply })
        (record { held = s.held; all = s.all; is_open = s.is_open; keeps = s.keeps })
        (rw (s.held) (s.all, s.is_open, s.keeps))

  all_sent :
      (socket : Socket) (c : Closing)
      → socket.sent ++ [] ≡ plan
      → socket.closed ≡ false
      → c.keep_alive ≡ keep
      → IsSent plan keep socket (record c { pending_frames = []; socket = some socket })
  all_sent socket c h o k = record {
    held = refl;
    all = sym (append-nil socket.sent) ∙ h;
    is_open = o;
    keeps = k;
  }

  -- What a round of the flush needs: the socket has what is no longer pending, and is open.
  flush-IsFlushed :
      (w : World) (attempts : List Attempt) (frames : List Frame) (socket : Socket) (c : Closing)
      → c.state ≡ State.flushing_pending_frames
      → socket.sent ++ frames ≡ plan
      → socket.closed ≡ false
      → c.keep_alive ≡ keep
      → AllFlushed plan keep (flush w attempts frames socket c)
  unfolding flush
  flush-IsFlushed w [] frames socket c e h o k = rw (e) (h, o, k)
  flush-IsFlushed w (Attempt.pending ∷ rest) frames socket c e h o k = rw (e) (h, o, k)
  flush-IsFlushed w (Attempt.failed ∷ rest) frames socket c e h o k = record {
    rest = frames;
    joined = h;
  }
  flush-IsFlushed w (Attempt.refuses ∷ rest) [] socket c e h o k =
      flushed-IsFlushed c.wait_for_reply w socket
        (record c { pending_frames = []; socket = some socket }) (all_sent socket c h o k)
  flush-IsFlushed w (Attempt.refuses ∷ rest) (f ∷ frames) socket c e h o k = record {
    rest = f ∷ frames;
    joined = h;
  }
  flush-IsFlushed w (Attempt.accepts ∷ rest) [] socket c e h o k =
      flushed-IsFlushed c.wait_for_reply w socket
        (record c { pending_frames = []; socket = some socket }) (all_sent socket c h o k)
  flush-IsFlushed w (Attempt.accepts ∷ rest) (f ∷ frames) socket c e h o k =
      flush-IsFlushed w rest frames (record socket { sent = socket.sent ++ (f ∷ []) }) c e
        (append_assoc socket.sent (f ∷ []) frames ∙ h) o k

  resume-IsFlushed :
      (w : World) (state : State) (socket : Option Socket) (c : Closing)
      → c.state ≡ state
      → c.socket ≡ socket
      → Going plan keep state c.pending_frames socket c.keep_alive
      → AllFlushed plan keep (resume w state socket c)
  unfolding resume
  resume-IsFlushed w state none c e h g = elim g [ ]
  resume-IsFlushed w State.closing_stream_receiver (some socket) c e h (g, _, _) = elim g [ ]
  resume-IsFlushed w State.draining_stream_receiver (some socket) c e h (g, _, _) = elim g [ ]
  resume-IsFlushed w State.flushing_pending_frames (some socket) c e h (g, o, k) =
      flush-IsFlushed w w.attempts c.pending_frames socket c e g o k
  resume-IsFlushed w State.waiting_for_reply (some socket) c e h (g, o, k) =
      wait_reply-IsFlushed w.replies w.close socket c
        (record { held = h; all = g; is_open = o; keeps = k }) (rw (e, h) (g, o, k))
  resume-IsFlushed w State.closing_socket (some socket) c e h (g, o, k) =
      close_socket-IsFlushed c.keep_alive w.close socket c k
        (record { held = h; all = g; is_open = o; keeps = k }) (rw (e, h) (g, o, k))

  run_from-IsFlushed :
      (worlds : List World) (outcome : Outcome) (c : Closing)
      → IsFlushed plan keep outcome c
      → AllFlushed plan keep (run_from worlds outcome c)
  unfolding run_from poll
  run_from-IsFlushed [] outcome c h = h
  run_from-IsFlushed (w ∷ worlds) Outcome.pending c h =
      run_from-IsFlushed worlds (poll w c).outcome (poll w c).closing
        (resume-IsFlushed w c.state c.socket c refl refl h)
  run_from-IsFlushed (_ ∷ _) (Outcome.finished socket) c h = h
  run_from-IsFlushed (_ ∷ _) (Outcome.failed e) c h = h
  run_from-IsFlushed (_ ∷ _) Outcome.panicked c h = elim h [ ]

-- A closing of an open socket, polled once or more, never panics. While it is pending, the socket is
-- open, and what it has been given, with the frames that are still pending, is the plan: what was sent
-- before, the frames that were pending, the frames of the streams' commands and the last frame, each
-- once and in this order. When it finishes, the socket has been given all of the plan, and is closed
-- unless it is kept alive. When it fails, the socket has been given the first frames of the plan.
pub run-IsFlushed :
    (w : World) (worlds : List World) (frames : List Frame) (sent : List Frame) (wait keep : Bool)
    → IsFlushed
        (sent ++ (frames ++ (owed w.commands ++ (term ∷ []))))
        keep
        (run (w ∷ worlds) (new frames (record { sent = sent; closed = false }) wait keep)).outcome
        (run (w ∷ worlds) (new frames (record { sent = sent; closed = false }) wait keep)).closing
unfolding run run_from poll resume new
run-IsFlushed w worlds frames sent wait keep =
    let socket : Socket = record { sent = sent; closed = false } in
    let first = poll w (new frames socket wait keep) in
    let plan = sent ++ (frames ++ (owed w.commands ++ (term ∷ []))) in
    run_from-IsFlushed plan keep worlds first.outcome first.closing (
      flush-IsFlushed plan keep w w.attempts (drain w.commands frames) socket
        (record (new frames socket wait keep) {
          receivers_closed = true;
          state = State.flushing_pending_frames;
          pending_frames = drain w.commands frames;
        })
        refl (ap (λ xs. sent ++ xs) (drain-owed w.commands frames)) refl refl)
