-- ===== src/Mux/Connection/Shutdown/Finished.antt =====
-- mux/mux/src/connection/closing.rs: a poll that finds the socket ready at each attempt comes to an end.
use mathlib.Core.List.{append-nil, append_assoc}
use tlsn_utils.Base.{
  ◌≡◌, ◌⊎◌, inl, inr, refl, sym, ap, ◌∙◌, Bool, true, false, not, List, [], ◌∷◌, ◌++◌,
  if◌then◌else◌,
}
use tlsn_utils.Mux.Frame.{Frame, term}
use tlsn_utils.Mux.Connection.Driver.{FramePoll}
use tlsn_utils.Mux.Connection.Shutdown.{
  State, Socket, Closing, Attempt, ClosePoll, World, Outcome, Polled, new, drain, close_socket,
  is_go_away, wait_reply, flushed, flush, resume, poll, with_frames,
}
use tlsn_utils.Mux.Connection.Shutdown.Flushed.{owed, drain-owed}

-- One attempt for each frame, and one more, after the last of which there is nothing to send.
abbrev pub all_accepted : List Frame → List Attempt
all_accepted [] = Attempt.accepts ∷ []
all_accepted (_ ∷ frames) = Attempt.accepts ∷ all_accepted frames

-- Before anything else than a frame, the peer says that it goes away, or it is gone.
abbrev pub HasReply : List FramePoll → Type 0
HasReply [] = ⊥
HasReply (FramePoll.frame f ∷ rest) = (is_go_away f.header.tag ≡ true) ⊎ HasReply rest
HasReply (FramePoll.failed ∷ _) = ⊥
HasReply (FramePoll.ended ∷ _) = Unit
HasReply (FramePoll.pending ∷ _) = ⊥

abbrev Closes : Bool → Socket → Polled → Type 0
Closes keep socket p =
    socket.closed ≡ false
    → p.outcome ≡ Outcome.finished (record { sent = socket.sent; closed = not keep })

close_socket-Closes :
    (keep : Bool) (socket : Socket) (c : Closing)
    → Closes keep socket (close_socket keep ClosePoll.ready socket c)
unfolding close_socket
close_socket-Closes true socket c o =
    ap (λ b. Outcome.finished (record { sent = socket.sent; closed = b })) o
close_socket-Closes false socket c o = refl

wait_reply-Closes :
    (replies : List FramePoll) (socket : Socket) (c : Closing)
    → HasReply replies
    → Closes c.keep_alive socket (wait_reply replies ClosePoll.ready socket c)
unfolding wait_reply
wait_reply-Closes [] socket c h = elim h [ ]
wait_reply-Closes (FramePoll.frame f ∷ rest) socket c (inl e) =
    rw (e) (close_socket-Closes c.keep_alive socket (record c { state = State.closing_socket }))
wait_reply-Closes (FramePoll.frame f ∷ rest) socket c (inr h) =
    elim (is_go_away f.header.tag)
      as (λ b. Closes c.keep_alive socket (
        if b
        then close_socket c.keep_alive ClosePoll.ready socket
            (record c { state = State.closing_socket })
        else wait_reply rest ClosePoll.ready socket c)) [
          | true ↦
              close_socket-Closes c.keep_alive socket (record c { state = State.closing_socket })
          | false ↦ wait_reply-Closes rest socket c h
        ]
wait_reply-Closes (FramePoll.failed ∷ rest) socket c h = elim h [ ]
wait_reply-Closes (FramePoll.ended ∷ rest) socket c h =
    close_socket-Closes c.keep_alive socket (record c { state = State.closing_socket })
wait_reply-Closes (FramePoll.pending ∷ rest) socket c h = elim h [ ]

flushed-Closes :
    (wait : Bool) (w : World) (socket : Socket) (c : Closing)
    → w.close ≡ ClosePoll.ready
    → (wait ≡ true → HasReply w.replies)
    → Closes c.keep_alive socket (flushed wait w socket c)
unfolding flushed
flushed-Closes true w socket c e h =
    rw (e)
      (wait_reply-Closes w.replies socket (record c { state = State.waiting_for_reply }) (h refl))
flushed-Closes false w socket c e h =
    rw (e) (close_socket-Closes c.keep_alive socket (record c { state = State.closing_socket }))

flush-all_accepted :
    (w : World) (frames : List Frame) (socket : Socket) (c : Closing)
    → flush w (all_accepted frames) frames socket c
      ≡ flushed c.wait_for_reply w
          (record socket { sent = socket.sent ++ frames })
          (with_frames [] (record socket { sent = socket.sent ++ frames }) c)
unfolding flush
flush-all_accepted w [] socket c =
    ap
      (λ xs.
        flushed c.wait_for_reply w (record socket { sent = xs })
          (with_frames [] (record socket { sent = xs }) c))
      (sym (append-nil socket.sent))
flush-all_accepted w (f ∷ frames) socket c =
    flush-all_accepted w frames (record socket { sent = socket.sent ++ (f ∷ []) }) c
    ∙ ap
        (λ xs.
          flushed c.wait_for_reply w (record socket { sent = xs })
            (with_frames [] (record socket { sent = xs }) c))
        (append_assoc socket.sent (f ∷ []) frames)

-- A first poll of the closing of an open socket finishes, if the socket is ready once for each frame of
-- the plan and once more, its close is ready, and, if a reply is waited for, the peer says that it goes
-- away, or is gone, after nothing but frames. The socket has then been given what was sent before, the pending frames, the
-- frames of the streams' commands and the last frame, and it is closed unless it is kept alive.
pub poll-finishes :
    (w : World) (frames : List Frame) (sent : List Frame) (wait keep : Bool)
    → w.attempts ≡ all_accepted (frames ++ (owed w.commands ++ (term ∷ [])))
    → w.close ≡ ClosePoll.ready
    → (wait ≡ true → HasReply w.replies)
    → (poll w (new frames (record { sent = sent; closed = false }) wait keep)).outcome
      ≡ Outcome.finished (record {
        sent = sent ++ (frames ++ (owed w.commands ++ (term ∷ [])));
        closed = not keep;
      })
unfolding poll resume new
poll-finishes w frames sent wait keep a e h =
    let all = frames ++ (owed w.commands ++ (term ∷ [])) in
    let socket : Socket = record { sent = sent; closed = false } in
    let sent_all : Socket = record { sent = sent ++ all; closed = false } in
    let c : List Frame → Closing = λ q. record (new frames socket wait keep) {
      receivers_closed = true;
      state = State.flushing_pending_frames;
      pending_frames = q;
    } in
    let drained = drain w.commands frames in
    ap (λ xs. (flush w xs drained socket (c drained)).outcome) a
    ∙ ap (λ q. (flush w (all_accepted all) q socket (c q)).outcome) (drain-owed w.commands frames)
    ∙ ap (λ p. p.outcome) (flush-all_accepted w all socket (c all))
    ∙ flushed-Closes wait w sent_all (with_frames [] sent_all (c all)) e h refl
