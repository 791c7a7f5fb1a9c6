-- ===== src/Limit/Rate/Bound.antt =====
-- futures-limit/src/rate.rs: the bytes that pass are bounded by the burst and the time.
use tlsn_utils.Base.{
  ℕ, ◌+◌, ◌-◌, ◌*◌, ◌/◌, ◌≤◌, ◌≡◌, ◌∙◌, refl, subst, min, max, true, Option, none, some, List, [],
  ◌∷◌, leb, ◌==◌, if◌then◌else◌, length, take, length-take, arith, All, Bool-cases, inl, inr,
}
use tlsn_utils.Limit.Bucket.{TokenBucket, u64_max, consume, poll_refill, refill, elapsed_micros}
use tlsn_utils.Limit.Rate.{
  Rate, Call, PollWrite, pending, failed, took, tokens_per_byte, waiting, written,
  poll_write_internal, append_answer, go_on, poll_all,
}

-- What a bucket has gained and spent on the way from `b` to `b'`, when `spent` tokens were used.
pub record IsSpent (spent : ℕ) (now : ℕ) (b b' : TokenBucket) : Type 0 where
  pub paid : spent + b'.tokens ≤ b.tokens + ((b'.last_refill - b.last_refill) / 1000) * b.rate
  pub forward : b.last_refill ≤ b'.last_refill
  pub so_far : b'.last_refill ≤ max b.last_refill now
  pub same_rate : b'.rate ≡ b.rate
  pub same_capacity : b'.capacity ≡ b.capacity
  pub within : b.tokens ≤ b.capacity → b'.tokens ≤ b'.capacity

min_le : (a b c : ℕ) → a ≤ c → min a b ≤ c
min_le a b c h = omega arith

pub mul_mono : (a b r : ℕ) → a ≤ b → a * r ≤ b * r
mul_mono a b r h = grind arith

pub refill-IsSpent : (now : ℕ) (b : TokenBucket) → IsSpent 0 now b (refill now b)
unfolding refill
refill-IsSpent now b = elim (Bool-cases (elapsed_micros now b == 0)) [
  | inl e ↦ rw e (record {
    paid = omega arith;
    forward = omega arith;
    so_far = omega arith;
    same_rate = refl;
    same_capacity = refl;
    within = λ h. h;
  })
  | inr e ↦ rw e (record {
    paid = omega (
      arith,
      mul_mono (elapsed_micros now b) ((now - b.last_refill) / 1000) b.rate (omega arith),
    );
    forward = ground arith;
    so_far = omega arith;
    same_rate = refl;
    same_capacity = refl;
    within = λ h. omega arith;
  })
]

IsSpent-later :
    (spent now t : ℕ) (b b' : TokenBucket) → now ≤ t → IsSpent spent now b b' → IsSpent spent t b b'
IsSpent-later spent now t b b' h v = record {
  paid = v.paid;
  forward = v.forward;
  so_far = omega (arith, v.so_far);
  same_rate = v.same_rate;
  same_capacity = v.same_capacity;
  within = v.within;
}

add-mul : (x y r : ℕ) → (x + y) * r ≡ x * r + y * r
add-mul x y r = grind arith

spans :
    (a b c r : ℕ)
    → a ≤ b
    → b ≤ c
    → ((b - a) / 1000) * r + ((c - b) / 1000) * r ≤ ((c - a) / 1000) * r
spans a b c r h k =
    let floors : (b - a) / 1000 + (c - b) / 1000 ≤ (c - a) / 1000 = omega arith in
    omega (
      arith,
      mul_mono ((b - a) / 1000 + (c - b) / 1000) ((c - a) / 1000) r floors,
      add-mul ((b - a) / 1000) ((c - b) / 1000) r,
    )

IsSpent-then :
    (m n t : ℕ) (b b' b'' : TokenBucket)
    → IsSpent m t b b'
    → IsSpent n t b' b''
    → IsSpent (m + n) t b b''
IsSpent-then m n t b b' b'' v w = record {
  paid =
      paid (v.paid) (w.paid)
        (spans b.last_refill b'.last_refill b''.last_refill b.rate v.forward w.forward) v.same_rate;
  forward = omega (arith, v.forward, w.forward);
  so_far = omega (arith, v.so_far, w.so_far);
  same_rate = w.same_rate ∙ v.same_rate;
  same_capacity = w.same_capacity ∙ v.same_capacity;
  within = λ h. w.within (v.within h);
}
  where
    paid :
        m + b'.tokens ≤ b.tokens + ((b'.last_refill - b.last_refill) / 1000) * b.rate
        → n + b''.tokens ≤ b'.tokens + ((b''.last_refill - b'.last_refill) / 1000) * b'.rate
        → ((b'.last_refill - b.last_refill) / 1000) * b.rate
            + ((b''.last_refill - b'.last_refill) / 1000) * b.rate
          ≤ ((b''.last_refill - b.last_refill) / 1000) * b.rate
        → b'.rate ≡ b.rate
        → (m + n) + b''.tokens ≤ b.tokens + ((b''.last_refill - b.last_refill) / 1000) * b.rate
    paid h k l e = omega (
      arith,
      subst (λ r. n + b''.tokens ≤ b'.tokens + ((b''.last_refill - b'.last_refill) / 1000) * r) e k,
    )

-- The tokens of the bytes that an answer counts.
abbrev pub cost : PollWrite → ℕ
cost pending = 0
cost failed = 0
cost (took n) = n * tokens_per_byte

abbrev pub costs : List PollWrite → ℕ
costs [] = 0
costs (p ∷ ps) = cost p + costs ps

-- The writer never claims to have taken more than it was given.
abbrev pub IsHonest : List ℕ → PollWrite → Type 0
IsHonest bytes pending = Unit
IsHonest bytes failed = Unit
IsHonest bytes (took n) = n ≤ length bytes

abbrev pub IsPaid : {T : Type 0} → ℕ → Rate T → Option (PollWrite × Rate T) → Type 0
IsPaid t r none = ⊥
IsPaid t r (some (p, r')) = IsSpent (cost p) t r.bucket r'.bucket

abbrev pub ArePaid : {T : Type 0} → ℕ → Rate T → Option (List PollWrite × Rate T) → Type 0
ArePaid t r none = ⊥
ArePaid t r (some (ps, r')) = IsSpent (costs ps) t r.bucket r'.bucket

module _ {T : Type 0} (poll_write : List ℕ → T → PollWrite × T)
    (honest : (bytes : List ℕ) (t : T) → IsHonest bytes (poll_write bytes t).0) (until : ℕ) where
  waiting-IsPaid :
      (io : T) (waker : ℕ) (r : Rate T) (b : TokenBucket)
      → IsSpent 0 until r.bucket b
      → IsPaid until r (waiting poll_write io (poll_refill true waker b))
  unfolding poll_refill
  waiting-IsPaid io waker r b v = record {
    paid = v.paid;
    forward = v.forward;
    so_far = v.so_far;
    same_rate = v.same_rate;
    same_capacity = v.same_capacity;
    within = v.within;
  }

  -- The answer for at most `n` bytes, no more than there are tokens for.
  written-IsPaid :
      (bytes : List ℕ) (r : Rate T) (b : TokenBucket) (answer : PollWrite × T)
      → IsSpent 0 until r.bucket b
      → b.tokens ≤ u64_max
      → length bytes ≤ b.tokens / tokens_per_byte
      → IsHonest bytes answer.0
      → IsPaid until r (written poll_write b answer)
  unfolding consume
  written-IsPaid bytes r b (pending, io) v word few h = v
  written-IsPaid bytes r b (failed, io) v word few h = v
  written-IsPaid bytes r b (took n, io) v word few h =
      let fits : leb (n * tokens_per_byte) u64_max ≡ true = ground arith in
      rw fits (record {
        paid = omega (arith, v.paid);
        forward = v.forward;
        so_far = v.so_far;
        same_rate = v.same_rate;
        same_capacity = v.same_capacity;
        within = λ k. omega (arith, v.within k);
      })

  pub poll_write_internal-IsPaid :
      (c : Call) (r : Rate T)
      → c.now ≤ until
      → c.timer_pending ≡ true
      → r.bucket.tokens ≤ r.bucket.capacity
      → r.bucket.capacity ≤ u64_max
      → IsPaid until r (poll_write_internal poll_write c r)
  unfolding poll_write_internal
  poll_write_internal-IsPaid c r early armed full word = go (refill c.now r.bucket) (
      IsSpent-later 0 c.now until r.bucket (refill c.now r.bucket) early
        (refill-IsSpent c.now r.bucket))
    where
      go :
          (b : TokenBucket)
          → IsSpent 0 until r.bucket b
          → IsPaid until r (
              if b.tokens / tokens_per_byte == 0
              then waiting poll_write r.io (poll_refill c.timer_pending c.waker b)
              else written poll_write b
                  (poll_write (take (min (length c.buf) (b.tokens / tokens_per_byte)) c.buf) r.io))
      go b v = elim (Bool-cases (b.tokens / tokens_per_byte == 0)) [
        | inl e ↦ rw (e, armed) (waiting-IsPaid r.io c.waker r b v)
        | inr e ↦ rw e (
            written-IsPaid (take (min (length c.buf) (b.tokens / tokens_per_byte)) c.buf) r b
              (poll_write (take (min (length c.buf) (b.tokens / tokens_per_byte)) c.buf) r.io) v
              (omega (arith, v.within full, v.same_capacity))
              (omega (arith, length-take (min (length c.buf) (b.tokens / tokens_per_byte)) c.buf))
              (honest (take (min (length c.buf) (b.tokens / tokens_per_byte)) c.buf) r.io))
      ]

  abbrev pub IsCall : Call → Type 0
  IsCall c = (c.now ≤ until) × (c.timer_pending ≡ true)

  append_answer-ArePaid :
      (r r' : Rate T) (p : PollWrite) (out : Option (List PollWrite × Rate T))
      → IsSpent (cost p) until r.bucket r'.bucket
      → ArePaid until r' out
      → ArePaid until r (append_answer poll_write p out)
  append_answer-ArePaid r r' p (some (ps, r'')) v w =
      IsSpent-then (cost p) (costs ps) until r.bucket r'.bucket r''.bucket v w
  append_answer-ArePaid r r' p none v w = w

  pub poll_all-ArePaid :
      (cs : List Call) (r : Rate T)
      → All IsCall cs
      → r.bucket.tokens ≤ r.bucket.capacity
      → r.bucket.capacity ≤ u64_max
      → ArePaid until r (poll_all poll_write cs r)
  unfolding poll_all
  poll_all-ArePaid [] r h full word = record {
    paid = omega arith;
    forward = omega arith;
    so_far = omega arith;
    same_rate = refl;
    same_capacity = refl;
    within = λ k. k;
  }
  poll_all-ArePaid (c ∷ cs) r h full word =
      go (poll_write_internal poll_write c r) (poll_write_internal-IsPaid c r h.0.0 h.0.1 full word)
        (λ r' k l. poll_all-ArePaid cs r' h.1 k l)
    where
      go :
          (out : Option (PollWrite × Rate T))
          → IsPaid until r out
          → ((r' : Rate T)
              → r'.bucket.tokens ≤ r'.bucket.capacity
              → r'.bucket.capacity ≤ u64_max
              → ArePaid until r' (poll_all poll_write cs r'))
          → ArePaid until r (go_on poll_write (poll_all poll_write cs) out)
      go none v rec = v
      go (some (p, r')) v rec =
          append_answer-ArePaid r r' p (poll_all poll_write cs r') v
            (rec r' (v.within full) (omega (arith, v.same_capacity)))
