-- ===== src/Limit/Delay/Feed.antt =====
-- futures-limit/src/delay.rs: what the future feeds to the queue.
use mathlib.Core.List.{append-nil, append_assoc}
use tlsn_utils.Base.{
  ℕ, ◌+◌, ◌*◌, ◌≤◌, ◌≡◌, refl, sym, ap, true, false, none, List, [], ◌∷◌, ◌++◌, ltb, ◌==◌, length,
  length-append, All, All-append, arith,
}
use tlsn_utils.Limit.Delay.{
  Packet, Simplex, to_wake, wake_reader, close_write, Arrival, got, take_in, push_packet,
  FuturePoll, ok, poll,
}
use tlsn_utils.Limit.Delay.Laws.{IsQueue, total}

-- The arrivals of some chunks of bytes, and then of `rest`.
abbrev pub gives : List (List ℕ) → List Arrival → List Arrival
gives [] rest = rest
gives (c ∷ cs) rest = got c ∷ gives cs rest

abbrev pub flat : List (List ℕ) → List ℕ
flat [] = []
flat (c ∷ cs) = c ++ flat cs

-- The queue with its task woken, if one waits.
abbrev pub roused : Simplex → Simplex
roused s = record s { read_waker = none; woken = s.woken ++ to_wake s.read_waker }

-- The queue with the chunks behind its bytes, as one packet that is due `delay` milliseconds after `now`.
abbrev pub fed : ℕ → ℕ → List (List ℕ) → Simplex → Simplex
fed now delay [] s = s
fed now delay (c ∷ cs) s = roused (record s {
  buf = s.buf ++ flat (c ∷ cs);
  packets =
      s.packets ++ (record { len = length (flat (c ∷ cs)); ready_at = now + delay * 1000000 } ∷ []);
})

abbrev pub shut : Simplex → Simplex
shut s = roused (record s { is_closed = true })

abbrev pub AreChunks : List (List ℕ) → Type 0
AreChunks cs = All (λ (c : List ℕ). 1 ≤ length c) cs

take_in-gives :
    (cs : List (List ℕ)) (rest : List Arrival)
    → AreChunks cs
    → take_in (gives cs rest) ≡ (flat cs ++ (take_in rest).0, (take_in rest).1)
unfolding take_in
take_in-gives [] rest h = refl
take_in-gives (c ∷ cs) rest h =
    let full : (length c == 0) ≡ false = ground (arith, h.0) in
    rw (full, take_in-gives cs rest h.1)
      (ap (λ xs. (xs, (take_in rest).1)) (sym (append_assoc c (flat cs) ((take_in rest).0))))

total-append : (ps qs : List Packet) → total (ps ++ qs) ≡ total ps + total qs
total-append [] qs = omega arith
total-append (p ∷ ps) qs = omega (arith, total-append ps qs)

some_bytes : (c : List ℕ) (cs : List (List ℕ)) → 1 ≤ length c → 1 ≤ length (flat (c ∷ cs))
some_bytes c cs h = omega (arith, length-append c (flat cs))

pushed_lem :
    (now delay : ℕ) (cs : List (List ℕ)) (s : Simplex)
    → AreChunks cs
    → push_packet now delay (length (flat cs)) (record s { buf = s.buf ++ flat cs })
      ≡ fed now delay cs s
unfolding wake_reader
pushed_lem now delay [] s h = ap (λ xs. record s { buf = xs }) (append-nil s.buf)
pushed_lem now delay (c ∷ cs) s h =
    let more : ltb 0 (length (flat (c ∷ cs))) ≡ true = ground (arith, some_bytes c cs h.0) in
    rw more refl

fed-IsQueue :
    (now delay : ℕ) (cs : List (List ℕ)) (s : Simplex)
    → AreChunks cs
    → IsQueue s
    → IsQueue (fed now delay cs s)
fed-IsQueue now delay [] s h v = v
fed-IsQueue now delay (c ∷ cs) s h v =
    let packet : Packet = record {
      len = length (flat (c ∷ cs));
      ready_at = now + delay * 1000000;
    } in
    record {
      accounts = omega (
        arith,
        v.accounts,
        length-append s.buf (flat (c ∷ cs)),
        total-append s.packets (packet ∷ []),
      );
      full =
          All-append (λ (p : Packet). 1 ≤ p.len) s.packets (packet ∷ []) v.full
            (some_bytes c cs h.0, tt);
    }

-- What a poll of the future makes of `cs`, chunks of one byte or more that the reader below gives, for a
-- queue whose packets account for its bytes. If the reader is then pending, so is the future, and the
-- chunks stand behind the bytes as one packet, which is due `delay` milliseconds after the time of the
-- poll; the task that waits to read is woken if there was a chunk. If the reader then ends, the future
-- is done, the chunks are fed in the same way, the queue is closed and the task is woken. In both cases the
-- packets account for the bytes. If the reader fails, so does the future: the queue is closed and the task
-- woken, and the chunks are in the buffer but in no packet.
pub poll-IsFed :
    (now delay : ℕ) (cs : List (List ℕ)) (rest : List Arrival) (s : Simplex)
    → AreChunks cs
    → IsQueue s
    → (poll now delay (gives cs []) s ≡ (FuturePoll.pending, fed now delay cs s))
      × (poll now delay (gives cs (got [] ∷ rest)) s ≡ (ok, shut (fed now delay cs s)))
      × (poll now delay (gives cs (Arrival.failed ∷ rest)) s
          ≡ (FuturePoll.failed, shut (record s { buf = s.buf ++ flat cs })))
      × IsQueue (fed now delay cs s)
unfolding poll take_in close_write wake_reader
poll-IsFed now delay cs rest s h v =
    let end : flat cs ++ [] ≡ flat cs = append-nil (flat cs) in
    (
      rw (take_in-gives cs [] h, end)
          (ap (λ t. (FuturePoll.pending, t)) (pushed_lem now delay cs s h)),
      rw (take_in-gives cs (got [] ∷ rest) h, end)
          (ap (λ t. (ok, close_write t)) (pushed_lem now delay cs s h)),
      rw (take_in-gives cs (Arrival.failed ∷ rest) h, end) refl,
      fed-IsQueue now delay cs s h v,
    )
