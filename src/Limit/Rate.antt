-- ===== src/Limit/Rate.antt =====
-- futures-limit/src/rate.rs: `Rate`, a writer that is limited by a bucket of tokens. A token is a
-- millionth of a byte. The writer below is a parameter, its `poll_write`.
pub mod Bound
pub mod Limit
use tlsn_utils.Base.{
  ℕ, ◌+◌, ◌-◌, ◌*◌, ◌/◌, min, Bool, true, false, Option, none, some, List, [], ◌∷◌, leb, ◌==◌,
  if◌then◌else◌, length, take,
}
use tlsn_utils.Limit.Bucket.{TokenBucket, u64_max, consume, poll_refill, refill}
use tlsn_utils.Limit.Bucket as Bucket

-- `M`
abbrev pub tokens_per_byte : ℕ
tokens_per_byte = 1000000

abbrev pub div_ceil : ℕ → ℕ → ℕ
div_ceil n d = (n + (d - 1)) / d

-- What a `poll_write` answers.
pub data PollWrite : Type 0 where
  pending : PollWrite
  failed : PollWrite
  took : ℕ → PollWrite

pub record Rate (T : Type 0) : Type 0 where
  pub io : T
  pub bucket : TokenBucket

-- `none` is the overflow of `burst * M`.
unfoldable pub new : {T : Type 0} → T → ℕ → ℕ → ℕ → Option (Rate T)
unfolding Bucket.new
new io burst rate now =
    if leb (burst * tokens_per_byte) u64_max
    then some (record {
      io = io;
      bucket = Bucket.new (div_ceil (burst * tokens_per_byte) 8) (div_ceil rate 8) now;
    })
    else none

-- What a call of `poll_write` finds: the time, what the timer answers, its task and its bytes.
pub record Call : Type 0 where
  pub now : ℕ
  pub timer_pending : Bool
  pub waker : ℕ
  pub buf : List ℕ

module _ {T : Type 0} (poll_write : List ℕ → T → PollWrite × T) where
  -- A panic is `none`.
  abbrev pub waiting : T → Option TokenBucket → Option (PollWrite × Rate T)
  waiting io none = none
  waiting io (some b) = some (pending, record { io = io; bucket = b })

  abbrev pub written : TokenBucket → PollWrite × T → Option (PollWrite × Rate T)
  written b (pending, io) = some (pending, record { io = io; bucket = b })
  written b (failed, io) = some (failed, record { io = io; bucket = b })
  written b (took n, io) =
      if leb (n * tokens_per_byte) u64_max
      then some (took n, record { io = io; bucket = consume b (n * tokens_per_byte) })
      else none

  unfoldable pub poll_write_internal : Call → Rate T → Option (PollWrite × Rate T)
  unfolding refill consume poll_refill
  poll_write_internal c r =
      let b = refill c.now r.bucket in
      let available = b.tokens / tokens_per_byte in
      if available == 0
      then waiting r.io (poll_refill c.timer_pending c.waker b)
      else written b (poll_write (take (min (length c.buf) available) c.buf) r.io)

  -- A sequence of calls: what they answer, and what is left.
  abbrev pub append_answer :
      PollWrite → Option (List PollWrite × Rate T) → Option (List PollWrite × Rate T)
  append_answer p none = none
  append_answer p (some (ps, r)) = some (p ∷ ps, r)

  abbrev pub go_on :
      (Rate T → Option (List PollWrite × Rate T))
      → Option (PollWrite × Rate T)
      → Option (List PollWrite × Rate T)
  go_on rest none = none
  go_on rest (some (p, r)) = append_answer p (rest r)

  unfoldable pub poll_all : List Call → Rate T → Option (List PollWrite × Rate T)
  unfolding poll_write_internal
  poll_all [] r = some ([], r)
  poll_all (c ∷ cs) r = go_on (poll_all cs) (poll_write_internal c r)
