-- ===== src/Limit/Rate/Limit.antt =====
-- futures-limit/src/rate.rs: the limit that `Rate::new` promises, and that it lets bytes pass.
use tlsn_utils.Base.{
  ℕ, ◌+◌, ◌-◌, ◌*◌, ◌/◌, ◌≤◌, ◌<◌, ◌≡◌, refl, ap, min, true, false, Option, none, some, List, [],
  ◌∷◌, leb, ◌==◌, if◌then◌else◌, length, take, length-take, sym, arith, All, Bool-cases, inl, inr,
}
use tlsn_utils.Limit.Bucket.{TokenBucket, u64_max, consume, poll_refill, refill, elapsed_micros}
use tlsn_utils.Limit.Rate.{
  Rate, new, Call, PollWrite, pending, failed, took, tokens_per_byte, div_ceil, waiting, written,
  append_answer, go_on, poll_write_internal, poll_all,
}
use tlsn_utils.Limit.Rate.Bound.{
  IsSpent, IsHonest, IsCall, ArePaid, mul_mono, refill-IsSpent, poll_all-ArePaid, cost, costs,
}

abbrev pub bytes_of : List PollWrite → ℕ
bytes_of [] = 0
bytes_of (pending ∷ ps) = bytes_of ps
bytes_of (failed ∷ ps) = bytes_of ps
bytes_of (took n ∷ ps) = n + bytes_of ps

costs-bytes_of : (ps : List PollWrite) → costs ps ≡ bytes_of ps * tokens_per_byte
costs-bytes_of [] = omega arith
costs-bytes_of (pending ∷ ps) = omega (arith, costs-bytes_of ps)
costs-bytes_of (failed ∷ ps) = omega (arith, costs-bytes_of ps)
costs-bytes_of (took n ∷ ps) = omega (arith, costs-bytes_of ps)

-- The calls all return, and together pass no more bytes than the burst and the time allow.
abbrev pub IsLimited : {T : Type 0} → ℕ → ℕ → ℕ → Option (List PollWrite × Rate T) → Type 0
IsLimited burst rate micros none = ⊥
IsLimited burst rate micros (some (ps, r)) =
    bytes_of ps * tokens_per_byte ≤ div_ceil (burst * tokens_per_byte) 8 + micros * div_ceil rate 8

new_bucket :
    {T : Type 0} (io : T) (burst rate start : ℕ) (r : Rate T)
    → new io burst rate start ≡ some r
    → (r.bucket.tokens ≡ div_ceil (burst * tokens_per_byte) 8)
      × (r.bucket.capacity ≡ div_ceil (burst * tokens_per_byte) 8)
      × (r.bucket.rate ≡ div_ceil rate 8)
      × (r.bucket.last_refill ≡ start)
      × (burst * tokens_per_byte ≤ u64_max)
unfolding new
new_bucket io burst rate start r e = elim (Bool-cases (leb (burst * tokens_per_byte) u64_max)) [
  | inl fits ↦ (ground arith, ground arith, ground arith, ground arith, ground arith)
  | inr big ↦ absurd (ground arith)
]

module _ {T : Type 0} (poll_write : List ℕ → T → PollWrite × T)
    (honest : (bytes : List ℕ) (t : T) → IsHonest bytes (poll_write bytes t).0) where
  -- A writer that is limited to `burst` bits and `rate` bits in a second, over one that never claims to
  -- have taken more than it was given: any calls up to the time `until` all return, with no overflow, and
  -- the bytes that pass are at most the burst and, for each microsecond since the start, a millionth of
  -- the rate, both rounded up to whole tokens or bytes.
  pub poll_all-IsLimited :
      (io : T) (burst rate start until : ℕ) (r : Rate T) (cs : List Call)
      → new io burst rate start ≡ some r
      → start ≤ until
      → All (IsCall poll_write honest until) cs
      → IsLimited burst rate ((until - start) / 1000) (poll_all poll_write cs r)
  poll_all-IsLimited io burst rate start until r cs e early h =
      go (poll_all poll_write cs r) (new_bucket io burst rate start r e)
        (poll_all-ArePaid poll_write honest until cs r h)
    where
      within :
          (ps : List PollWrite) (r' : Rate T)
          → r.bucket.tokens ≡ div_ceil (burst * tokens_per_byte) 8
          → r.bucket.rate ≡ div_ceil rate 8
          → r.bucket.last_refill ≡ start
          → IsSpent (costs ps) until r.bucket r'.bucket
          → costs ps ≡ bytes_of ps * tokens_per_byte
          → ((r'.bucket.last_refill - r.bucket.last_refill) / 1000) * r.bucket.rate
            ≤ ((until - start) / 1000) * r.bucket.rate
          → bytes_of ps * tokens_per_byte
            ≤ div_ceil (burst * tokens_per_byte) 8 + ((until - start) / 1000) * div_ceil rate 8
      within ps r' a c d v e k = omega (arith, v.paid, ap (λ x. ((until - start) / 1000) * x) c)

      go :
          (out : Option (List PollWrite × Rate T))
          → (r.bucket.tokens ≡ div_ceil (burst * tokens_per_byte) 8)
            × (r.bucket.capacity ≡ div_ceil (burst * tokens_per_byte) 8)
            × (r.bucket.rate ≡ div_ceil rate 8)
            × (r.bucket.last_refill ≡ start)
            × (burst * tokens_per_byte ≤ u64_max)
          → (r.bucket.tokens ≤ r.bucket.capacity
              → r.bucket.capacity ≤ u64_max
              → ArePaid until r out)
          → IsLimited burst rate ((until - start) / 1000) out
      go none (a, b, c, d, f) paid = paid (omega arith) (omega arith)
      go (some (ps, r')) (a, b, c, d, f) paid =
          let v = paid (omega arith) (omega arith) in
          within ps r' a c d v (costs-bytes_of ps) (
            mul_mono ((r'.bucket.last_refill - r.bucket.last_refill) / 1000)
              ((until - start) / 1000) r.bucket.rate (omega (arith, v.so_far, v.forward)))

-- Every call was answered by `pending`.
abbrev pub IsStarved : {T : Type 0} → Option (List PollWrite × Rate T) → Type 0
IsStarved none = ⊥
IsStarved (some (ps, r)) = All (λ p. p ≡ pending) ps

module _ {T : Type 0} (poll_write : List ℕ → T → PollWrite × T) where
  abbrev IsSmall : TokenBucket → Type 0
  IsSmall b = (b.tokens ≤ b.capacity) × (b.capacity < tokens_per_byte)

  starved :
      (c : Call) (r : Rate T)
      → c.timer_pending ≡ true
      → IsSmall r.bucket
      → (b : TokenBucket) × (poll_write_internal poll_write c r
          ≡ some (pending, record r { bucket = b }))
        × IsSmall b
  unfolding poll_write_internal poll_refill
  starved c r armed small = go (refill c.now r.bucket) (refill-IsSpent c.now r.bucket)
    where
      go :
          (b : TokenBucket)
          → IsSpent 0 c.now r.bucket b
          → (b' : TokenBucket) × ((if b.tokens / tokens_per_byte == 0
                then waiting poll_write r.io (poll_refill c.timer_pending c.waker b)
                else written poll_write b (
                    poll_write (take (min (length c.buf) (b.tokens / tokens_per_byte)) c.buf) r.io))
              ≡ some (pending, record r { bucket = b' }))
            × IsSmall b'
      go b v =
          let empty : (b.tokens / tokens_per_byte == 0) ≡ true =
            ground (arith, v.within small.0, v.same_capacity) in
          (
            record b { timer = some c.waker },
            rw (empty, armed) refl,
            (v.within small.0, omega (arith, v.same_capacity)),
          )

  small-IsStarved :
      (cs : List Call) (r : Rate T)
      → All (λ (c : Call). c.timer_pending ≡ true) cs
      → IsSmall r.bucket
      → IsStarved (poll_all poll_write cs r)
  unfolding poll_all
  small-IsStarved [] r h small = tt
  small-IsStarved (c ∷ cs) r h small =
      go (starved c r h.0 small) (λ b k. small-IsStarved cs (record r { bucket = b }) h.1 k)
    where
      more :
          (out : Option (List PollWrite × Rate T))
          → IsStarved out
          → IsStarved (append_answer poll_write pending out)
      more none v = v
      more (some (ps, r')) v = (refl, v)

      go :
          ((b : TokenBucket) × (poll_write_internal poll_write c r
              ≡ some (pending, record r { bucket = b }))
            × IsSmall b)
          → ((b : TokenBucket)
              → IsSmall b
              → IsStarved (poll_all poll_write cs (record r { bucket = b })))
          → IsStarved
              (go_on poll_write (poll_all poll_write cs) (poll_write_internal poll_write c r))
      go (b, e, k) rec = rw e (more (poll_all poll_write cs (record r { bucket = b })) (rec b k))

  -- With a burst below 8 bits the bucket never holds a whole byte: every call is pending, at any time
  -- and whatever the rate, and no byte passes.
  pub poll_all-IsStarved :
      (io : T) (burst rate start : ℕ) (r : Rate T) (cs : List Call)
      → new io burst rate start ≡ some r
      → burst < 8
      → All (λ (c : Call). c.timer_pending ≡ true) cs
      → IsStarved (poll_all poll_write cs r)
  poll_all-IsStarved io burst rate start r cs e small h =
      small-IsStarved cs r h (go (new_bucket io burst rate start r e))
    where
      go :
          (r.bucket.tokens ≡ div_ceil (burst * tokens_per_byte) 8)
            × (r.bucket.capacity ≡ div_ceil (burst * tokens_per_byte) 8)
            × (r.bucket.rate ≡ div_ceil rate 8)
            × (r.bucket.last_refill ≡ start)
            × (burst * tokens_per_byte ≤ u64_max)
          → IsSmall r.bucket
      go (a, b, c, d, f) = (omega arith, omega arith)

-- The tokens of a full refill at the time `now`.
abbrev pub refilled : ℕ → TokenBucket → ℕ
refilled now b = min (b.tokens + elapsed_micros now b * b.rate) b.capacity

refill-refilled :
    (now : ℕ) (b : TokenBucket)
    → b.capacity ≤ u64_max
    → b.tokens ≤ b.capacity
    → (refill now b).tokens ≡ refilled now b
unfolding refill
refill-refilled now b word small = elim (Bool-cases (elapsed_micros now b == 0)) [
  | inl e ↦
      let still : elapsed_micros now b ≡ 0 = ground arith in
      rw (e, ap (λ x. min (b.tokens + x * b.rate) b.capacity) still) (omega arith)
  | inr e ↦ rw e (omega arith)
]

module _ {T : Type 0} (poll_write : List ℕ → T → PollWrite × T)
    (honest : (bytes : List ℕ) (t : T) → IsHonest bytes (poll_write bytes t).0) where
  -- The writer's answer to the bytes that it was given is passed on, and paid for.
  abbrev pub IsAnswered : ℕ → PollWrite × T → Option (PollWrite × Rate T) → Type 0
  IsAnswered tokens answer none = ⊥
  IsAnswered tokens answer (some (p, r')) =
      (p ≡ answer.0) × (r'.io ≡ answer.1) × (r'.bucket.tokens + cost p ≡ tokens)

  written-IsAnswered :
      (b : TokenBucket) (given : List ℕ) (answer : PollWrite × T)
      → b.tokens ≤ u64_max
      → length given ≤ b.tokens / tokens_per_byte
      → IsHonest given answer.0
      → IsAnswered b.tokens answer (written poll_write b answer)
  unfolding consume
  written-IsAnswered b given (pending, io) word few h = (refl, refl, omega arith)
  written-IsAnswered b given (failed, io) word few h = (refl, refl, omega arith)
  written-IsAnswered b given (took n, io) word few h =
      let fits : leb (n * tokens_per_byte) u64_max ≡ true = ground arith in
      rw fits (refl, refl, omega arith)

  -- Once the time since the last refill is worth a byte, a bucket that can hold one does not make the
  -- writer below wait: it is given the first bytes of the buffer, as many as the tokens pay for, which are
  -- those of the bucket and of the time, at most its capacity, and for at least one byte. The answer is
  -- that of the writer below, whose state is kept, and the tokens of the bytes that it took are paid. No
  -- call panics. The writer below never claims to have taken more than it was given.
  pub poll_write_internal-passes :
      (c : Call) (r : Rate T)
      → tokens_per_byte ≤ r.bucket.capacity
      → r.bucket.capacity ≤ u64_max
      → r.bucket.tokens ≤ r.bucket.capacity
      → tokens_per_byte ≤ elapsed_micros c.now r.bucket * r.bucket.rate
      → let tokens = refilled c.now r.bucket in
        let given = take (min (length c.buf) (tokens / tokens_per_byte)) c.buf in
        (1 ≤ tokens / tokens_per_byte)
        × IsAnswered tokens (poll_write given r.io) (poll_write_internal poll_write c r)
  unfolding poll_write_internal
  poll_write_internal-passes c r room word small due =
      go (refill c.now r.bucket) (refilled c.now r.bucket)
        (refill-refilled c.now r.bucket word small) (omega arith) (omega arith)
    where
      go :
          (b : TokenBucket) (tokens : ℕ)
          → b.tokens ≡ tokens
          → tokens_per_byte ≤ tokens
          → tokens ≤ u64_max
          → (1 ≤ tokens / tokens_per_byte)
            × IsAnswered tokens
                (poll_write (take (min (length c.buf) (tokens / tokens_per_byte)) c.buf) r.io)
                (if b.tokens / tokens_per_byte == 0
                  then waiting poll_write r.io (poll_refill c.timer_pending c.waker b)
                  else written poll_write b (
                      poll_write
                        (take (min (length c.buf) (b.tokens / tokens_per_byte)) c.buf)
                        r.io))
      go b tokens e h k =
          let full : (b.tokens / tokens_per_byte == 0) ≡ false = ground arith in
          let given = take (min (length c.buf) (b.tokens / tokens_per_byte)) c.buf in
          rw (sym e) (
            omega arith,
            rw full (
                written-IsAnswered b given (poll_write given r.io) (omega arith)
                  (omega
                    (arith, length-take (min (length c.buf) (b.tokens / tokens_per_byte)) c.buf))
                  (honest given r.io)),
          )
