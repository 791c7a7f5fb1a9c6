-- ===== src/Mux/Rtt/Trace.antt =====
-- mux/mux/src/connection/rtt.rs: what any sequence of tests for a ping and of pongs makes of a
-- measurement.
use tlsn_utils.Base.{ℕ, ◌+◌, ◌-◌, ◌≤◌, ◌<◌, ◌≡◌, ◌≢◌, Option, none, some, List, [], ◌∷◌}
use tlsn_utils.Mux.Frame as Frame
use tlsn_utils.Mux.Frame.{Frame}
use tlsn_utils.Mux.Rtt.{
  Rtt, RttState, waiting, awaiting_pong, ping_interval, Action, nothing, pong, terminate, next_ping,
  handle_pong,
}

-- A test for a ping at a time, with the time and the nonce for one, or a pong with its nonce, the time at
-- which the measurement is taken and the time from which the interval counts.
pub data Event : Type 0 where
  test : ℕ → ℕ → ℕ → Event
  got_pong : ℕ → ℕ → ℕ → Event

-- What became of an event.
pub data Entry : Type 0 where
  skipped : ℕ → Entry
  pinged : ℕ → ℕ → ℕ → Frame → Entry
  answered : ℕ → ℕ → ℕ → Option ℕ → Entry
  refused : ℕ → Frame → Entry
  echoed : Entry

abbrev pub note_test : ℕ → ℕ → ℕ → Option Frame → Entry
note_test now sent_at nonce none = skipped now
note_test now sent_at nonce (some frame) = pinged now sent_at nonce frame

abbrev pub note_pong : ℕ → ℕ → ℕ → Action × Rtt → Entry
note_pong received at now (nothing, s) = answered received at now s.rtt
note_pong received at now (pong n, s) = echoed
note_pong received at now (terminate frame, s) = refused received frame

unfoldable pub run : List Event → Rtt → List Entry
unfolding next_ping handle_pong
run [] s = []
run (test now sent_at nonce ∷ events) s =
    note_test now sent_at nonce ((next_ping s now sent_at nonce).0)
    ∷ run events ((next_ping s now sent_at nonce).1)
run (got_pong received at now ∷ events) s =
    note_pong received at now (handle_pong s received (λ t. at - t) now)
    ∷ run events ((handle_pong s received (λ t. at - t) now).1)

-- The protocol, from a time at which a ping may go out, or from a ping that was sent at a time with a
-- nonce.
abbrev pub Follows : RttState → List Entry → Type 0
Follows state [] = Unit
Follows (waiting next) (skipped now ∷ rest) = (now < next) × Follows (waiting next) rest
Follows (waiting next) (pinged now sent_at nonce frame ∷ rest) =
    (next ≤ now) × (frame ≡ Frame.ping nonce) × Follows (awaiting_pong sent_at nonce) rest
Follows (waiting next) (answered received at now rtt ∷ rest) = ⊥
Follows (waiting next) (refused received frame ∷ rest) =
    (frame ≡ Frame.protocol_error) × Follows (waiting next) rest
Follows (waiting next) (echoed ∷ rest) = ⊥
Follows (awaiting_pong sent_at nonce) (skipped now ∷ rest) =
    Follows (awaiting_pong sent_at nonce) rest
Follows (awaiting_pong sent_at nonce) (pinged now later other frame ∷ rest) = ⊥
Follows (awaiting_pong sent_at nonce) (answered received at now rtt ∷ rest) =
    (received ≡ nonce) × (rtt ≡ some (at - sent_at)) × Follows (waiting (now + ping_interval)) rest
Follows (awaiting_pong sent_at nonce) (refused received frame ∷ rest) =
    (received ≢ nonce) × (frame ≡ Frame.protocol_error) × Follows (awaiting_pong sent_at nonce) rest
Follows (awaiting_pong sent_at nonce) (echoed ∷ rest) = ⊥
