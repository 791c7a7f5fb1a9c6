-- ===== src/Limit/Delay.antt =====
-- futures-limit/src/delay.rs: the queue of a reader whose bytes are delayed. Times are numbers of
-- nanoseconds. `packets` are in the order of their age, the oldest first: the source's deque from its
-- back to its front. The timer is a library's: `read_timer` has the task that its last poll registered,
-- and what a poll answers is an argument.
pub mod Stuck
pub mod Laws
pub mod Feed
use tlsn_utils.Base.{
  ℕ, zero, suc, ◌+◌, ◌-◌, ◌*◌, ◌/◌, min, Bool, true, false, not, Option, none, some, List, [], ◌∷◌,
  ◌++◌, ltb, ◌==◌, if◌then◌else◌, length, take, drop,
}

pub record Packet : Type 0 where
  pub len : ℕ
  pub ready_at : ℕ

pub record Simplex : Type 0 where
  pub buf : List ℕ
  pub packets : List Packet
  pub is_closed : Bool
  pub read_waker : Option ℕ
  pub read_timer : Option ℕ
  pub woken : List ℕ

unfoldable pub new : Simplex
new = record {
  buf = [];
  packets = [];
  is_closed = false;
  read_waker = none;
  read_timer = none;
  woken = [];
}

abbrev pub to_wake : Option ℕ → List ℕ
to_wake none = []
to_wake (some w) = w ∷ []

unfoldable pub wake_reader : Simplex → Simplex
wake_reader s = record s { read_waker = none; woken = s.woken ++ to_wake s.read_waker }

unfoldable pub close_write : Simplex → Simplex
unfolding wake_reader
close_write s = wake_reader (record s { is_closed = true })

-- `time_left.as_millis() > 0`
abbrev pub is_early : ℕ → Packet → Bool
is_early now p = ltb 0 ((p.ready_at - now) / 1000000)

-- What the loop over the packets leaves: the bytes that may still be read, the packets without those that
-- are done, and whether it stopped at a packet that is not ready.
abbrev pub Scan : Type 0
Scan = ℕ × List Packet × Bool

unfoldable pub scan : ℕ → ℕ → List Packet → Scan
scan now remaining [] = (remaining, [], false)
scan now remaining (p ∷ ps) =
    let rest = scan now (remaining - p.len) ps in
    if is_early now p
    then (remaining, p ∷ ps, true)
    else if ltb remaining p.len
    then (0, record p { len = p.len - remaining } ∷ ps, false)
    else if remaining - p.len == 0
    then (0, ps, false)
    else rest

-- What a `poll_read` answers.
pub data ReadPoll : Type 0 where
  pending : ReadPoll
  ready : List ℕ → ReadPoll

-- The end of `poll_read`, for at most `max_len` bytes.
abbrev pub take_scanned : ℕ → ℕ → List Packet → Simplex → ReadPoll × Simplex
take_scanned max_len remaining packets s = if remaining == max_len then (pending, s) else (
  ready (take (max_len - remaining) s.buf),
  record s { packets = packets; buf = drop (max_len - remaining) s.buf },
)

-- `none` is the failed assertion that a timer which has just been reset is pending.
abbrev pub after_scan : Bool → ℕ → ℕ → Simplex → Scan → Option (ReadPoll × Simplex)
after_scan timer_pending waker max_len s (remaining, packets, false) =
    some (take_scanned max_len remaining packets s)
after_scan timer_pending waker max_len s (remaining, packets, true) =
    if timer_pending
    then some (take_scanned max_len remaining packets (record s { read_timer = some waker }))
    else none

unfoldable pub poll_read : ℕ → Bool → ℕ → ℕ → Simplex → Option (ReadPoll × Simplex)
unfolding scan
poll_read now timer_pending waker size s =
    if not (length s.buf == 0)
    then after_scan timer_pending waker (min (length s.buf) size) s
        (scan now (min (length s.buf) size) s.packets)
    else if s.is_closed
    then some (ready [], s)
    else some (pending, record s { read_waker = some waker })

-- What the reader below answers, one after the other until it is pending: bytes, or an error.
pub data Arrival : Type 0 where
  got : List ℕ → Arrival
  failed : Arrival

-- How the loop of `DelayFuture::poll` over the arrivals ends.
pub data Ending : Type 0 where
  waits : Ending
  closed : Ending
  broken : Ending

-- The bytes that were appended, and the end.
unfoldable pub take_in : List Arrival → List ℕ × Ending
take_in [] = ([], waits)
take_in (failed ∷ rest) = ([], broken)
take_in (got bytes ∷ rest) =
    let more = take_in rest in if length bytes == 0 then ([], closed) else (bytes ++ more.0, more.1)

-- The packet of what was appended.
abbrev pub push_packet : ℕ → ℕ → ℕ → Simplex → Simplex
push_packet now delay len s =
    if ltb 0 len
    then wake_reader (record s {
      packets = s.packets ++ (record { len = len; ready_at = now + delay * 1000000 } ∷ []);
    })
    else s

-- What the future answers.
pub data FuturePoll : Type 0 where
  pending : FuturePoll
  ok : FuturePoll
  failed : FuturePoll

abbrev pub taken_in : ℕ → ℕ → Simplex → List ℕ × Ending → FuturePoll × Simplex
taken_in now delay s (bytes, broken) =
    (FuturePoll.failed, close_write (record s { buf = s.buf ++ bytes }))
taken_in now delay s (bytes, waits) =
    (FuturePoll.pending, push_packet now delay (length bytes) (record s { buf = s.buf ++ bytes }))
taken_in now delay s (bytes, closed) =
    (ok, close_write (push_packet now delay (length bytes) (record s { buf = s.buf ++ bytes })))

-- `DelayFuture::poll`, once it has both locks.
unfoldable pub poll : ℕ → ℕ → List Arrival → Simplex → FuturePoll × Simplex
unfolding take_in wake_reader close_write
poll now delay arrivals s = taken_in now delay s (take_in arrivals)
