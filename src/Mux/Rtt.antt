-- ===== src/Mux/Rtt.antt =====
-- mux/mux/src/connection/rtt.rs: the measurement of the round-trip time. Times are numbers of
-- nanoseconds; the clock and the random nonce are arguments.
pub mod Trace
use tlsn_utils.Base.{
  ℕ, ◌+◌, ◌*◌, ◌≤◌, ◌≡◌, refl, Option, none, some, ltb, ◌==◌, not, if◌then◌else◌, arith, Bool-cases,
  inl, inr, ◌≢◌,
}
use tlsn_utils.Mux.Frame as Frame
use tlsn_utils.Mux.Frame.{Frame}

abbrev pub ping_interval : ℕ
ping_interval = 10 * 1000000000

pub data RttState : Type 0 where
  awaiting_pong : ℕ → ℕ → RttState
  waiting : ℕ → RttState

-- `RttInner`
pub record Rtt : Type 0 where
  pub state : RttState
  pub rtt : Option ℕ

-- `Action` of mux/mux/src/connection/active.rs
pub data Action : Type 0 where
  nothing : Action
  pong : ℕ → Action
  terminate : Frame → Action

unfoldable pub new : ℕ → Rtt
new now = record { state = waiting now; rtt = none }

-- `now` is the time of the test, `sent_at` that of the ping.
abbrev next_ping_from : RttState → Rtt → ℕ → ℕ → ℕ → Option Frame × Rtt
next_ping_from (awaiting_pong t n) s now sent_at nonce = (none, s)
next_ping_from (waiting next) s now sent_at nonce =
    if ltb now next
    then (none, s)
    else (some (Frame.ping nonce), record s { state = awaiting_pong sent_at nonce })

unfoldable pub next_ping : Rtt → ℕ → ℕ → ℕ → Option Frame × Rtt
next_ping s now sent_at nonce = next_ping_from s.state s now sent_at nonce

-- `elapsed` is what `sent_at.elapsed()` gives.
abbrev handle_pong_from : RttState → Rtt → ℕ → (ℕ → ℕ) → ℕ → Action × Rtt
handle_pong_from (waiting next) s received_nonce elapsed now = (terminate Frame.protocol_error, s)
handle_pong_from (awaiting_pong sent_at expected_nonce) s received_nonce elapsed now =
    if not (received_nonce == expected_nonce)
    then (terminate Frame.protocol_error, s)
    else (nothing, record { state = waiting (now + ping_interval); rtt = some (elapsed sent_at) })

unfoldable pub handle_pong : Rtt → ℕ → (ℕ → ℕ) → ℕ → Action × Rtt
handle_pong s received_nonce elapsed now = handle_pong_from s.state s received_nonce elapsed now
