-- ===== src/Limit/Bucket.antt =====
-- futures-limit/src/bucket.rs: the bucket of tokens. The time is a number of nanoseconds, an argument of
-- the methods that read the clock. The timer is a library's: `timer` has the task that its last poll
-- registered, and what a poll answers is an argument.
use tlsn_utils.Base.{
  ℕ, ◌+◌, ◌-◌, ◌*◌, ◌/◌, ◌%◌, ◌^◌, min, Bool, Option, none, some, ◌==◌, if◌then◌else◌,
}

-- `u64::MAX`
abbrev pub u64_max : ℕ
u64_max = 0xffff_ffff_ffff_ffff

pub record TokenBucket : Type 0 where
  pub capacity : ℕ
  pub tokens : ℕ
  pub rate : ℕ
  pub last_refill : ℕ
  pub timer : Option ℕ

unfoldable pub new : ℕ → ℕ → ℕ → TokenBucket
new capacity rate now = record {
  capacity = capacity;
  tokens = capacity;
  rate = rate;
  last_refill = now;
  timer = none;
}

unfoldable pub consume : TokenBucket → ℕ → TokenBucket
consume b amount = record b { tokens = b.tokens - amount }

-- `none` is the failed assertion that a timer which has just been reset is pending.
unfoldable pub poll_refill : Bool → ℕ → TokenBucket → Option TokenBucket
poll_refill pending waker b = if pending then some (record b { timer = some waker }) else none

-- `duration_since` is zero for a time before, and the microseconds are cut to 64 bits.
abbrev pub elapsed_micros : ℕ → TokenBucket → ℕ
elapsed_micros now b = ((now - b.last_refill) / 1000) % 2 ^ 64

unfoldable pub refill : ℕ → TokenBucket → TokenBucket
refill now b =
    let elapsed = elapsed_micros now b in
    if elapsed == 0 then b else record b {
      tokens = min (min (b.tokens + min (elapsed * b.rate) u64_max) u64_max) b.capacity;
      last_refill = now;
    }
