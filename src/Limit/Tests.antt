-- ===== src/Limit/Tests.antt =====
-- The crate futures-limit: the theorems at concrete calls.
use tlsn_utils.Base.{ℕ, ◌≤◌, ◌≡◌, refl, none, some, List, [], ◌∷◌, length, arith, true, false}
use tlsn_utils.Limit.Rate.{Rate, new, Call, PollWrite, took, poll_write_internal, poll_all}
use tlsn_utils.Limit.Rate.Bound.{IsHonest}
use tlsn_utils.Limit.Delay.{Simplex, poll_read, Arrival, FuturePoll, ok, poll}
use tlsn_utils.Limit.Delay.Laws.{IsQueue, IsDelayed, poll_read-IsDelayed}
use tlsn_utils.Limit.Delay.Feed.{shut, poll-IsFed}
use tlsn_utils.Limit.Delay.Stuck.{HasHung, poll-IsStuck}
use tlsn_utils.Limit.Rate.Limit.{
  IsLimited, poll_all-IsLimited, IsStarved, poll_all-IsStarved, IsAnswered,
  poll_write_internal-passes,
}

-- A writer that takes all it is given, and keeps it.
abbrev take_all : List ℕ → List ℕ → PollWrite × List ℕ
take_all bytes t = (took (length bytes), bytes)

take_all-IsHonest : (bytes t : List ℕ) → IsHonest bytes (take_all bytes t).0
take_all-IsHonest bytes t = omega arith

abbrev call : ℕ → Call
call now = record { now = now; timer_pending = true; waker = 4; buf = 1 ∷ 2 ∷ 3 ∷ [] }

abbrev limited : ℕ → Rate (List ℕ)
limited tokens = record {
  io = [];
  bucket = record {
    capacity = tokens;
    tokens = tokens;
    rate = 1000;
    last_refill = 5;
    timer = none;
  };
}

new-limited : new [] 16 8000 5 ≡ some (limited 2000000)
unfolding new
new-limited = refl

limited_example :
    IsLimited 16 8000 4000 (poll_all take_all (call 1000 ∷ call 2000000 ∷ []) (limited 2000000))
limited_example =
    poll_all-IsLimited take_all take_all-IsHonest [] 16 8000 5 4000005 (limited 2000000)
      (call 1000 ∷ call 2000000 ∷ []) new-limited (omega arith)
      ((omega arith, refl), ((omega arith, refl), tt))

new-small : new [] 7 8000 5 ≡ some (limited 875000)
unfolding new
new-small = refl

starved_example : IsStarved (poll_all take_all (call 1000 ∷ call 2000000 ∷ []) (limited 875000))
starved_example =
    poll_all-IsStarved take_all [] 7 8000 5 (limited 875000) (call 1000 ∷ call 2000000 ∷ [])
      new-small (omega arith) (refl, (refl, tt))

passes_example :
    (1 ≤ 2)
    × IsAnswered take_all take_all-IsHonest 2000000
        (take_all (1 ∷ 2 ∷ []) [])
        (poll_write_internal take_all (call 2000005) (limited 2000000))
passes_example =
    poll_write_internal-passes take_all take_all-IsHonest (call 2000005) (limited 2000000)
      (omega arith) (omega arith) (omega arith) (omega arith)

-- Two packets, of which the second is not ready.
abbrev queue : Simplex
queue = record {
  buf = 1 ∷ 2 ∷ 3 ∷ 4 ∷ [];
  packets = record { len = 3; ready_at = 5 } ∷ record { len = 1; ready_at = 90000000 } ∷ [];
  is_closed = false;
  read_waker = none;
  read_timer = none;
  woken = [];
}

queue-IsQueue : IsQueue queue
queue-IsQueue = record { accounts = refl; full = (omega arith, (omega arith, tt)) }

poll_read_example : IsDelayed 10 7 9 queue (poll_read 10 true 7 9 queue)
poll_read_example = poll_read-IsDelayed 10 7 9 queue queue-IsQueue

abbrev fed_queue : Simplex
fed_queue = record queue {
  buf = 1 ∷ 2 ∷ 3 ∷ 4 ∷ 5 ∷ 6 ∷ 7 ∷ [];
  packets =
      record { len = 3; ready_at = 5 }
      ∷ record { len = 1; ready_at = 90000000 }
      ∷ record { len = 3; ready_at = 20000010 }
      ∷ [];
}

feed_example :
    (poll 10 20 (Arrival.got (5 ∷ 6 ∷ []) ∷ Arrival.got (7 ∷ []) ∷ []) queue
      ≡ (FuturePoll.pending, fed_queue))
    × (poll 10 20 (Arrival.got (5 ∷ 6 ∷ []) ∷ Arrival.got (7 ∷ []) ∷ Arrival.got [] ∷ []) queue
        ≡ (ok, shut fed_queue))
    × (poll 10 20 (Arrival.got (5 ∷ 6 ∷ []) ∷ Arrival.got (7 ∷ []) ∷ Arrival.failed ∷ []) queue
        ≡ (FuturePoll.failed, shut (record queue { buf = 1 ∷ 2 ∷ 3 ∷ 4 ∷ 5 ∷ 6 ∷ 7 ∷ [] })))
    × IsQueue fed_queue
feed_example =
    poll-IsFed 10 20 ((5 ∷ 6 ∷ []) ∷ (7 ∷ []) ∷ []) [] queue (omega arith, (omega arith, tt))
      queue-IsQueue

abbrev empty_queue : Simplex
empty_queue = record queue { buf = []; packets = [] }

hung_example : HasHung (poll 10 20 (Arrival.got (5 ∷ 6 ∷ []) ∷ Arrival.failed ∷ []) empty_queue)
hung_example = poll-IsStuck 10 20 5 (6 ∷ []) [] empty_queue refl refl
