-- ===== src/Mux/Flow/Update.antt =====
-- mux/mux/src/connection/stream/flow_control.rs: `next_window_update` keeps the invariant of the
-- window and of the windows of the connection together.
use tlsn_utils.Base.{
  ℕ, ◌+◌, ◌-◌, ◌*◌, ◌/◌, ◌≤◌, ◌<◌, ◌≡◌, refl, true, Option, none, some, ltb, leb, u32_max,
  usize_max, arith, ◌⊎◌, inl, inr, le→leb, leb→le, ltb→lt, ◌≢◌, Bool-cases,
}
use tlsn_utils.Mux.Config.{Config, default_credit}
use tlsn_utils.Mux.Flow.{
  FlowController, Pooled, limit_of, spare, assert_invariants, exhausted_fast, new_max, auto_tune,
  update_size, grant, next_window_update,
}

-- The invariant of a stream's window, with the part of the connection's windows that it holds.
pub record IsValid (s : FlowController) (p : Pooled) : Type 0 where
  pub one_stream : 1 ≤ s.config.max_num_streams
  pub received : s.receive_window ≤ s.max_receive_window
  pub least : default_credit ≤ s.max_receive_window
  pub word : s.max_receive_window ≤ u32_max
  pub share : s.max_receive_window - default_credit ≤ p.accumulated
  pub pool : p.accumulated ≤ spare s.config
  pub limit_word : limit_of s.config.max_connection_receive_window ≤ usize_max
  pub untuned : p.rtt ≡ none → s.max_receive_window ≡ default_credit

spare-le :
    (c : Config)
    → limit_of c.max_connection_receive_window ≤ usize_max
    → 1 ≤ c.max_num_streams
    → spare c + default_credit ≤ usize_max
spare-le c h k = omega arith

assert-IsValid :
    (s : FlowController) (p : Pooled) (buffer_len : ℕ)
    → IsValid s p
    → buffer_len ≤ s.max_receive_window
    → assert_invariants s p buffer_len ≡ true
unfolding assert_invariants
assert-IsValid s p buffer_len v h = ground arith

-- Tuning never overflows, keeps the invariant, never lowers the maximum nor more than doubles it, and
-- books exactly the difference.
record Tuned (s : FlowController) (p : Pooled) (r : FlowController × Pooled) : Type 0 where
  valid : IsValid r.0 r.1
  grows : s.max_receive_window ≤ r.0.max_receive_window
  doubles : r.0.max_receive_window ≤ s.max_receive_window * 2
  booked : r.1.accumulated + s.max_receive_window ≡ p.accumulated + r.0.max_receive_window
  same_window : r.0.receive_window ≡ s.receive_window
  same_rtt : r.1.rtt ≡ p.rtt
  same_config : r.0.config ≡ s.config
  same_send : r.0.send_window ≡ s.send_window

tuned_max :
    (s : FlowController) (p : Pooled)
    → IsValid s p
    → (s.max_receive_window ≤ new_max s p)
      × (new_max s p ≤ s.max_receive_window * 2)
      × (new_max s p ≤ u32_max)
      × (new_max s p ≤ s.max_receive_window + (spare s.config - p.accumulated))
tuned_max s p v = omega arith

auto_tune-Tuned :
    (s : FlowController) (p : Pooled)
    → IsValid s p
    → p.rtt ≢ none
    → (r : FlowController × Pooled) × (auto_tune s p ≡ some r) × Tuned s p r
unfolding auto_tune
auto_tune-Tuned s p v timed =
    let (a, b, c, d) = tuned_max s p v in
    let room = spare-le s.config v.limit_word v.one_stream in
    let e1 : leb (s.max_receive_window + (spare s.config - p.accumulated)) usize_max ≡ true =
      le→leb _ _ (omega arith) in
    let e2 : leb s.max_receive_window (new_max s p) ≡ true = le→leb _ _ a in
    let e3 : leb (p.accumulated + (new_max s p - s.max_receive_window)) usize_max ≡ true =
      le→leb _ _ (omega arith) in
    (
      (
        record s { max_receive_window = new_max s p },
        record p { accumulated = p.accumulated + (new_max s p - s.max_receive_window) },
      ),
      rw (e1, e2, e3),
      record {
        valid = record {
          one_stream = v.one_stream;
          received = omega arith;
          least = omega arith;
          word = c;
          share = omega arith;
          pool = omega arith;
          limit_word = v.limit_word;
          untuned = λ n. absurd (timed n);
        };
        grows = a;
        doubles = b;
        booked = omega arith;
        same_window = refl;
        same_rtt = refl;
        same_config = refl;
        same_send = refl;
      },
    )

-- What a window update grants: the window regains what was received and read, the sender may now send
-- no more than fits beside what is still buffered, and the maximum has not been lowered.
pub record Granted (s : FlowController) (p : Pooled) (buffer_len n : ℕ) (s' : FlowController)
    (p' : Pooled) : Type 0 where
  pub valid : IsValid s' p'
  pub window : s'.receive_window ≡ s.receive_window + n
  pub room : (n ≡ 0) ⊎ (s'.receive_window + buffer_len ≤ s'.max_receive_window)
  pub grows : s.max_receive_window ≤ s'.max_receive_window
  pub doubles : s'.max_receive_window ≤ s.max_receive_window * 2
  pub booked : p'.accumulated + s.max_receive_window ≡ p.accumulated + s'.max_receive_window
  pub same_send : s'.send_window ≡ s.send_window

-- The outcome of `next_window_update`: never a panic, nothing changed when no update is worth it,
-- and else a grant of at least half of the old maximum.
abbrev pub Updated :
    FlowController → Pooled → ℕ → Option (Option ℕ × FlowController × Pooled) → Type 0
Updated s p buffer_len none = ⊥
Updated s p buffer_len (some (none, s', p')) =
    (update_size s buffer_len < s.max_receive_window / 2) × (s' ≡ s) × (p' ≡ p)
Updated s p buffer_len (some (some n, s', p')) =
    (s.max_receive_window / 2 ≤ n) × Granted s p buffer_len n s' p'

room_left :
    (t : FlowController) (buffer_len : ℕ)
    → t.receive_window ≤ t.max_receive_window
    → t.max_receive_window ≤ u32_max
    → buffer_len ≤ t.max_receive_window
    → let n = update_size t buffer_len in
      (n ≡ 0) ⊎ (t.receive_window + n + buffer_len ≤ t.max_receive_window)
room_left t buffer_len h k l =
    elim (Bool-cases (leb (t.max_receive_window - t.receive_window) buffer_len)) [
      | inl e ↦ inl (omega (arith, leb→le _ _ e))
      | inr e ↦ inr (ground arith)
    ]

fast_timed : (rtt : Option ℕ) (elapsed : ℕ) → exhausted_fast rtt elapsed ≡ true → rtt ≢ none
fast_timed none elapsed e n = cc
fast_timed (some t) elapsed e n = cc

grant-Updated :
    (s t : FlowController) (p q : Pooled) (buffer_len now : ℕ)
    → IsValid s p
    → buffer_len ≤ s.max_receive_window
    → s.max_receive_window / 2 ≤ update_size s buffer_len
    → Tuned s p (t, q)
    → Updated s p buffer_len (grant buffer_len now t q)
unfolding grant
grant-Updated s t p q buffer_len now v h enough tuned =
    let v' : IsValid t q = tuned.valid in
    let n : ℕ = update_size t buffer_len in
    let t' : FlowController = record t {
      last_window_update = now;
      receive_window = t.receive_window + n;
    } in
    let valid : IsValid t' q = record {
      one_stream = v'.one_stream;
      received = omega arith;
      least = v'.least;
      word = v'.word;
      share = v'.share;
      pool = v'.pool;
      limit_word = v'.limit_word;
      untuned = v'.untuned;
    } in
    let e1 : leb t.receive_window t.max_receive_window ≡ true = le→leb _ _ v'.received in
    let e2 : leb (t.receive_window + n) u32_max ≡ true = le→leb _ _ (omega arith) in
    let e3 : assert_invariants t' q buffer_len ≡ true =
      assert-IsValid t' q buffer_len valid (omega arith) in
    rw (e1, e2, e3)
      (
        omega arith,
        record {
          valid = valid;
          window = omega arith;
          room = room_left t buffer_len v'.received v'.word (omega arith);
          grows = tuned.grows;
          doubles = tuned.doubles;
          booked = tuned.booked;
          same_send = tuned.same_send;
        },
      )

untuned-Tuned : (s : FlowController) (p : Pooled) → IsValid s p → Tuned s p (s, p)
untuned-Tuned s p v = record {
  valid = v;
  grows = omega arith;
  doubles = omega arith;
  booked = refl;
  same_window = refl;
  same_rtt = refl;
  same_config = refl;
  same_send = refl;
}

-- From a valid state `next_window_update` never panics (no assertion fails, no arithmetic overflows).
-- It leaves the state alone if less than half of the maximum would be granted. Else it grants at least
-- half of the old maximum, keeps the invariant of the stream and of the pool of windows (which stays
-- within the limit of the connection), never lowers the maximum nor more than doubles it, and books
-- exactly the growth.
pub next_window_update-Updated :
    (s : FlowController) (p : Pooled) (buffer_len elapsed now : ℕ)
    → IsValid s p
    → buffer_len ≤ s.max_receive_window
    → Updated s p buffer_len (next_window_update s p buffer_len elapsed now)
unfolding next_window_update
next_window_update-Updated s p buffer_len elapsed now v h =
    rw (assert-IsValid s p buffer_len v h)
      (elim (Bool-cases (ltb (update_size s buffer_len) (s.max_receive_window / 2))) [
        | inl small ↦ rw small (ltb→lt _ _ small, refl, refl)
        | inr large ↦
            let enough : s.max_receive_window / 2 ≤ update_size s buffer_len = ground arith in
            rw large (elim (Bool-cases (exhausted_fast p.rtt elapsed)) [
              | inl fast ↦
                  let ((t, q), e, tuned) = auto_tune-Tuned s p v (fast_timed p.rtt elapsed fast) in
                  rw (fast, e) (grant-Updated s t p q buffer_len now v h enough tuned)
              | inr slow ↦
                  rw slow (grant-Updated s s p p buffer_len now v h enough (untuned-Tuned s p v))
            ])
      ])
