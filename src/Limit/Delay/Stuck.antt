-- ===== src/Limit/Delay/Stuck.antt =====
-- futures-limit/src/delay.rs: an error of the reader below leaves bytes that belong to no packet.
use tlsn_utils.Base.{
  ℕ, ◌≡◌, refl, sym, ap, subst, min, Bool, true, false, some, List, [], ◌∷◌, ◌++◌, ◌==◌, length,
  arith,
}
use mathlib.Core.List.{append-nil}
use tlsn_utils.Limit.Delay.{
  Simplex, ReadPoll, poll_read, Arrival, got, failed, take_in, poll, FuturePoll, broken, taken_in,
  close_write,
}

-- The reader of the delayed bytes waits for ever: at any time it is answered `pending`, nothing changes,
-- and so no task is registered.
abbrev pub IsStuck : Simplex → Type 0
IsStuck s =
    (now waker size : ℕ) (timer_pending : Bool)
    → poll_read now timer_pending waker size s ≡ some (ReadPoll.pending, s)

self : (n : ℕ) → (n == n) ≡ true
self n = ground arith

orphans-IsStuck : (s : Simplex) → (length s.buf == 0) ≡ false → s.packets ≡ [] → IsStuck s
unfolding poll_read
orphans-IsStuck s e f now waker size timer_pending = simp (e, f, self (min (length s.buf) size))

take_in-broken :
    (byte : ℕ) (bytes : List ℕ) (rest : List Arrival)
    → take_in (got (byte ∷ bytes) ∷ failed ∷ rest) ≡ (byte ∷ bytes, broken)
unfolding take_in
take_in-broken byte bytes rest =
    let some_ : (length (byte ∷ bytes) == 0) ≡ false = ground arith in
    rw some_ (ap (λ xs. (byte ∷ xs, broken)) (append-nil bytes))

poll-broken :
    (now delay byte : ℕ) (bytes : List ℕ) (rest : List Arrival) (s : Simplex)
    → poll now delay (got (byte ∷ bytes) ∷ failed ∷ rest) s
      ≡ (FuturePoll.failed, close_write (record s { buf = s.buf ++ (byte ∷ bytes) }))
unfolding poll
poll-broken now delay byte bytes rest s = ap (taken_in now delay s) (take_in-broken byte bytes rest)

abbrev pub HasHung : FuturePoll × Simplex → Type 0
HasHung (p, s) = (p ≡ FuturePoll.failed) × (s.is_closed ≡ true) × IsStuck s

-- If the reader below gives some bytes and then fails, in one poll of the future that finds the queue
-- empty, the future ends with the error and the queue is closed, but the reader of the delayed bytes waits
-- for ever: it gets neither the bytes nor the end.
pub poll-IsStuck :
    (now delay : ℕ) (byte : ℕ) (bytes : List ℕ) (rest : List Arrival) (s : Simplex)
    → s.buf ≡ []
    → s.packets ≡ []
    → HasHung (poll now delay (got (byte ∷ bytes) ∷ failed ∷ rest) s)
unfolding close_write
poll-IsStuck now delay byte bytes rest s e f =
    subst HasHung (sym (poll-broken now delay byte bytes rest s)) (
      refl,
      refl,
      orphans-IsStuck (close_write (record s { buf = s.buf ++ (byte ∷ bytes) })) (filled s.buf e) f,
    )
  where
    filled : (buf : List ℕ) → buf ≡ [] → (length (buf ++ (byte ∷ bytes)) == 0) ≡ false
    filled buf e = rw e (ground arith)
