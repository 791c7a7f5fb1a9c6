-- ===== src/Plex/Stream/Queue.antt =====
-- futures-plex/src/lib.rs: a `SimplexStream` as a bounded queue of bytes, and its reads.
pub mod Write
use tlsn_utils.Base.{
  ℕ, zero, suc, ◌+◌, ◌-◌, ◌%◌, ◌≤◌, ◌<◌, ◌≡◌, refl, sym, ◌∙◌, ap, ap₂, subst, min, Bool, true,
  false, Option, none, some, List, [], ◌∷◌, ◌++◌, ltb, leb, ◌==◌, if◌then◌else◌, length, take, drop,
  length-take, arith, ◌⊎◌, Bool-cases, inl, inr,
}
use mathlib.Core.List.{append-nil}
use native.Mathlib.Nat.{mod-lt}
use tlsn_utils.Plex.Stream.{
  SimplexStream, new_unsplit, remaining_mut, slice, get, to_wake, advance, advance_mut, get_mut,
  copy, Poll, ready, reader_parked, broken_pipe, pending, poll_get, poll_mut, advanced, read_from,
  poll_read_internal, write_to, poll_write_internal,
}
use tlsn_utils.Plex.Stream.Ring.{
  wrap, ring, contents, wrap_lem, length-ring, slice-ring, take-ring, ring-add, ring-wrap,
  ring-same, ring_at, copy-outside, copy-slice,
}

pub record IsValid (s : SimplexStream) : Type 0 where
  pub placed : s.ptr < s.capacity
  pub room : s.len ≤ s.capacity

-- The stream `s'` after `bytes` were read from `s`.
pub record IsTaken (bytes : List ℕ) (s s' : SimplexStream) : Type 0 where
  pub valid : IsValid s'
  pub queue : contents s ≡ bytes ++ contents s'
  pub same_capacity : s'.capacity ≡ s.capacity
  pub wakes :
      (length bytes == 0) ≡ false
      → (s'.write_waker ≡ none) × (s'.woken ≡ s.woken ++ to_wake s.write_waker)

-- The bytes from the read cursor to the end of the queue, or to the end of the buffer.
abbrev pub first_chunk : SimplexStream → ℕ
first_chunk s = min s.len (s.capacity - s.ptr)

abbrev pub IsRead : ℕ → Bool → ℕ → SimplexStream → Option (Poll (List ℕ) × SimplexStream) → Type 0
IsRead waker closed_now size s none = ⊥
IsRead waker closed_now size s (some (broken_pipe, s')) = ⊥
IsRead waker closed_now size s (some (pending, s')) =
    (contents s ≡ [])
    × (s.closed ≡ false)
    × (closed_now ≡ false)
    × (s' ≡ reader_parked waker closed_now s)
IsRead waker closed_now size s (some (ready bytes, s')) =
    (length bytes ≡ min size (first_chunk s))
    × ((length bytes == 0) ≡ true → (size ≡ 0) ⊎ ((contents s ≡ []) × (s'.closed ≡ true)))
    × IsTaken bytes s s'

module _ (s : SimplexStream) (v : IsValid s) where
  -- The first contiguous chunk.
  chunk :
      (m : ℕ) × (get s ≡ ring s.buffer s.capacity s.ptr m)
      × (m ≡ first_chunk s)
      × ((s.len == 0) ≡ false → 1 ≤ m)
  unfolding get ring
  chunk = elim (Bool-cases (s.len == 0)) [
    | inl e ↦ (0, rw e refl, ground arith, λ f. absurd (ground arith))
    | inr e ↦ elim (Bool-cases (leb (s.ptr + s.len) s.capacity)) [
      | inl f ↦ (
        s.len,
        rw (e, f) (slice-ring s.buffer s.capacity s.ptr s.len (ground arith)),
        ground arith,
        λ g. ground arith,
      )
      | inr f ↦ (
        s.capacity - s.ptr,
        rw (e, f)
            (slice-ring s.buffer s.capacity s.ptr (s.capacity - s.ptr) (omega (arith, v.placed))),
        ground (arith, v.placed),
        λ g. omega (arith, v.placed),
      )
    ]
  ]

  -- The queue from the place that the read cursor moves to.
  ring-moved :
      (k : ℕ)
      → k ≤ s.len
      → ring s.buffer s.capacity ((s.ptr + k) % s.capacity) (s.len - k)
        ≡ ring s.buffer s.capacity (s.ptr + k) (s.len - k)
  ring-moved k h = elim (Bool-cases (ltb (s.ptr + k) s.capacity)) [
    | inl e ↦ ring_at s.buffer s.capacity ((s.ptr + k) % s.capacity) (s.ptr + k) (s.len - k) (
        wrap_lem s.capacity (s.ptr + k) (omega (arith, v.placed)) (omega (arith, v.placed, v.room))
        ∙ rw e refl)
    | inr e ↦
        ring_at s.buffer s.capacity ((s.ptr + k) % s.capacity) (s.ptr + k - s.capacity) (s.len - k)
          (wrap_lem s.capacity (s.ptr + k) (omega (arith, v.placed))
              (omega (arith, v.placed, v.room))
            ∙ rw e refl)
        ∙ sym (
            ring-wrap s.buffer s.capacity (s.ptr + k) (s.len - k) (ground arith)
              (omega (arith, v.placed, v.room)))
  ]

  split :
      (k : ℕ)
      → k ≤ s.len
      → contents s
        ≡ ring s.buffer s.capacity s.ptr k ++ ring s.buffer s.capacity (s.ptr + k) (s.len - k)
  split k h =
      ap (ring s.buffer s.capacity s.ptr) (omega arith)
      ∙ ring-add s.buffer s.capacity s.ptr k (s.len - k)

  moved_placed : (k : ℕ) → (s.ptr + k) % s.capacity < s.capacity
  moved_placed k = mod-lt (s.ptr + k) (omega (arith, v.placed))

  ring_none : (k : ℕ) → k ≡ 0 → ring s.buffer s.capacity s.ptr k ≡ []
  unfolding ring
  ring_none zero e = refl
  ring_none (suc k) e = absurd (omega arith)

  -- The state once `k` bytes, no more than those that are there, were taken.
  advance-IsTaken :
      (waker : ℕ) (closed_now : Bool) (size k : ℕ)
      → k ≤ s.len
      → k ≡ min size (first_chunk s)
      → ((k == 0) ≡ true → size ≡ 0)
      → IsRead waker closed_now size s (advanced (ring s.buffer s.capacity s.ptr k) (advance k s))
  unfolding advance
  advance-IsTaken waker closed_now size k h small why = elim (Bool-cases (k == 0)) [
    | inl e ↦ rw e (
      omega (arith, length-ring s.buffer s.capacity s.ptr k),
      (λ f. inl (why e)),
      record {
        valid = v;
        queue = ap (λ xs. xs ++ contents s) (sym (ring_none k (ground arith)));
        same_capacity = refl;
        wakes = λ f. absurd (ground (arith, length-ring s.buffer s.capacity s.ptr k));
      },
    )
    | inr e ↦
        let fits : leb k s.len ≡ true = ground arith in
        rw (e, fits)
          (
            omega (arith, length-ring s.buffer s.capacity s.ptr k),
            (λ f. absurd (ground (arith, length-ring s.buffer s.capacity s.ptr k))),
            record {
              valid = record { placed = moved_placed k; room = omega (arith, v.room) };
              queue =
                  split k h
                  ∙ ap (λ xs. ring s.buffer s.capacity s.ptr k ++ xs) (sym (ring-moved k h));
              same_capacity = refl;
              wakes = λ f. (refl, refl);
            },
          )
  ]

  read_from-IsRead :
      (waker : ℕ) (closed_now : Bool) (size : ℕ)
      → (s.len == 0) ≡ false
      → IsRead waker closed_now size s (read_from size (ready (get s), s))
  read_from-IsRead waker closed_now size e = go chunk
    where
      go :
          ((m : ℕ) × (get s ≡ ring s.buffer s.capacity s.ptr m)
            × (m ≡ first_chunk s)
            × ((s.len == 0) ≡ false → 1 ≤ m))
          → IsRead waker closed_now size s (read_from size (ready (get s), s))
      go (m, f, few, some_) =
          let one : 1 ≤ m = some_ e in
          let more : (m == 0) ≡ false = ground arith in
          rw
            (
              f,
              length-ring s.buffer s.capacity s.ptr m,
              more,
              take-ring s.buffer s.capacity s.ptr (min size m) m (omega arith),
            )
            (advance-IsTaken waker closed_now size (min size m) (omega arith) (omega arith)
              (λ g. ground arith))

  contents-none : (s.len == 0) ≡ true → contents s ≡ []
  contents-none e = ring_none s.len (ground arith)

  untouched : IsTaken [] s s
  untouched = record { valid = v; queue = refl; same_capacity = refl; wakes = λ g. cc }

  full_get :
      (waker : ℕ) (closed_now : Bool)
      → ltb 0 s.len ≡ true
      → poll_get waker closed_now s ≡ (ready (get s), s)
  unfolding poll_get
  full_get waker closed_now e = simp e

  ended_get :
      (waker : ℕ) (closed_now : Bool)
      → ltb 0 s.len ≡ false
      → s.closed ≡ true
      → poll_get waker closed_now s ≡ (ready [], s)
  unfolding poll_get
  ended_get waker closed_now e f = simp (e, f)

  empty_get :
      (waker : ℕ) (closed_now : Bool)
      → ltb 0 s.len ≡ false
      → s.closed ≡ false
      → poll_get waker closed_now s ≡ (
          if closed_now
          then (ready [], reader_parked waker closed_now s)
          else (pending, reader_parked waker closed_now s))
  unfolding poll_get
  empty_get waker closed_now e f = simp (e, f)

  parked-IsRead :
      (waker : ℕ) (closed_now : Bool) (size : ℕ)
      → (s.len == 0) ≡ true
      → s.closed ≡ false
      → IsRead waker closed_now size s (
          read_from size (
            if closed_now
            then (ready [], reader_parked waker closed_now s)
            else (pending, reader_parked waker closed_now s)))
  parked-IsRead waker true size e f = (
    ground arith,
    (λ g. inr (contents-none e, refl)),
    record {
      valid = record { placed = v.placed; room = v.room };
      queue = refl;
      same_capacity = refl;
      wakes = λ g. cc;
    },
  )
  parked-IsRead waker false size e f = (contents-none e, f, refl, refl)

  -- A read from a pipe that has bytes takes them from their front, exactly as many as there is room for of
  -- the first chunk, which ends with the queue or with the buffer, and wakes the waiting writer. From an
  -- empty pipe it takes none and ends if the pipe is closed, or is found closed once the task is
  -- registered; else it waits, with the task registered both for data and for a close.
  pub poll_read_internal-IsRead :
      (waker : ℕ) (closed_now : Bool) (size : ℕ)
      → IsRead waker closed_now size s (poll_read_internal waker closed_now size s)
  unfolding poll_read_internal
  poll_read_internal-IsRead waker closed_now size = elim (Bool-cases (ltb 0 s.len)) [
    | inl e ↦
        rw (full_get waker closed_now e) (read_from-IsRead waker closed_now size (ground arith))
    | inr e ↦ elim (Bool-cases s.closed) [
      | inl f ↦
          rw (ended_get waker closed_now e f)
            (ground arith, (λ g. inr (contents-none (ground arith), f)), untouched)
      | inr f ↦
          rw (empty_get waker closed_now e f) (parked-IsRead waker closed_now size (ground arith) f)
    ]
  ]
