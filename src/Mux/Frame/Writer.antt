-- ===== src/Mux/Frame/Writer.antt =====
-- mux/mux/src/frame/io.rs: the writing half of `Io`, a state machine that hands a header and then a
-- body to the transport in writes of any size. The transport's `poll_write` is a parameter.
pub mod Laws
pub mod Rounds
pub mod Loop
pub mod RoundTrip
use tlsn_utils.Base.{
  ℕ, zero, suc, ◌+◌, List, [], ◌∷◌, Run, done, out_of_fuel, ltb, ◌==◌, if◌then◌else◌, length, drop,
}
use tlsn_utils.Mux.Header.{encode}
use tlsn_utils.Mux.Frame.{Frame}

-- What `poll_write` answers: how many bytes it has taken.
pub data PollWrite : Type 0 where
  pending : PollWrite
  failed : PollWrite
  took : ℕ → PollWrite

pub data WriteState : Type 0 where
  init : WriteState
  header : List ℕ → List ℕ → ℕ → WriteState
  body : List ℕ → ℕ → WriteState
  poisoned : WriteState

-- The errors: of the transport, of the kind `WriteZero`, of a count that is too large, and of a state
-- that such an error has left.
pub data WriteError : Type 0 where
  io : WriteError
  write_zero : WriteError
  invalid_count : ℕ → WriteError
  in_poisoned : WriteError

pub data PollReady : Type 0 where
  pending : PollReady
  ok : PollReady
  failed : WriteError → PollReady

-- One round of the `loop`: `return`, or the next round. The transport has the state `T`.
pub data Control (T : Type 0) : Type 0 where
  give : PollReady → WriteState → T → Control T
  again : WriteState → T → Control T

unfoldable pub start_send : Frame → WriteState
start_send f = header (encode f.header) f.body 0

module _ {T : Type 0} (poll_write : List ℕ → T → PollWrite × T) where
  abbrev pub header_written : List ℕ → List ℕ → ℕ → PollWrite × T → Control T
  header_written head buffer offset (PollWrite.pending, t) =
      give PollReady.pending (header head buffer offset) t
  header_written head buffer offset (PollWrite.failed, t) =
      give (PollReady.failed io) (header head buffer offset) t
  header_written head buffer offset (took n, t) =
      if n == 0
      then give (PollReady.failed write_zero) (header head buffer offset) t
      else if ltb (length head) (offset + n)
      then give (PollReady.failed (invalid_count n)) poisoned t
      else if offset + n == length head
      then again (if length buffer == 0 then init else body buffer 0) t
      else again (header head buffer (offset + n)) t

  abbrev pub body_written : List ℕ → ℕ → PollWrite × T → Control T
  body_written buffer offset (PollWrite.pending, t) = give PollReady.pending (body buffer offset) t
  body_written buffer offset (PollWrite.failed, t) =
      give (PollReady.failed io) (body buffer offset) t
  body_written buffer offset (took n, t) =
      if n == 0
      then give (PollReady.failed write_zero) (body buffer offset) t
      else if ltb (length buffer) (offset + n)
      then give (PollReady.failed (invalid_count n)) poisoned t
      else if offset + n == length buffer
      then again init t
      else again (body buffer (offset + n)) t

  unfoldable pub round : WriteState → T → Control T
  round init t = give ok init t
  round (header head buffer offset) t =
      header_written head buffer offset (poll_write (drop offset head) t)
  round (body buffer offset) t = body_written buffer offset (poll_write (drop offset buffer) t)
  round poisoned t = give (PollReady.failed in_poisoned) poisoned t

  -- What follows a round.
  abbrev pub after :
      (WriteState → T → Run (PollReady × WriteState × T))
      → Control T
      → Run (PollReady × WriteState × T)
  after rest (give item s' t') = done (item, s', t')
  after rest (again s' t') = rest s' t'

  unfoldable pub poll_ready : ℕ → WriteState → T → Run (PollReady × WriteState × T)
  unfolding round
  poll_ready zero s t = out_of_fuel
  poll_ready (suc fuel) s t = after (poll_ready fuel) (round s t)
