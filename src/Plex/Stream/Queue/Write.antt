-- ===== src/Plex/Stream/Queue/Write.antt =====
-- futures-plex/src/lib.rs: a write to a `SimplexStream` appends to the queue.
use tlsn_utils.Base.{
  ℕ, ◌+◌, ◌-◌, ◌%◌, ◌≤◌, ◌<◌, ◌≡◌, refl, sym, ◌∙◌, ap, ap₂, min, Bool, true, false, Option, none,
  some, List, ◌++◌, ltb, leb, ◌==◌, if◌then◌else◌, length, take, length-take, arith, ◌⊎◌,
  Bool-cases, inl, inr,
}
use tlsn_utils.Plex.Stream.{
  SimplexStream, remaining_mut, to_wake, advance_mut, get_mut, copy, Poll, writer_parked, ready,
  broken_pipe, pending, poll_mut, advanced, write_to, poll_write_internal,
}
use tlsn_utils.Plex.Stream.Ring.{
  wrap, ring, contents, wrap_lem, length-ring, slice-ring, ring-add, ring-wrap, ring-same, ring_at,
  copy-outside, copy-slice,
}
use tlsn_utils.Plex.Stream.Queue.{IsValid}

-- The stream `s'` after the first `n` bytes of `buf` were written to `s`.
pub record IsPut (n : ℕ) (buf : List ℕ) (s s' : SimplexStream) : Type 0 where
  pub valid : IsValid s'
  pub queue : contents s' ≡ contents s ++ take n buf
  pub same_capacity : s'.capacity ≡ s.capacity
  pub wakes :
      (n == 0) ≡ false → (s'.read_waker ≡ none) × (s'.woken ≡ s.woken ++ to_wake s.read_waker)

-- The free bytes from the end of the queue to the end of the buffer, or to the read cursor if the queue
-- goes round.
abbrev pub free_chunk : SimplexStream → ℕ
free_chunk s =
    if ltb (s.ptr + s.len) s.capacity then s.capacity - (s.ptr + s.len) else s.capacity - s.len

abbrev pub IsWritten : ℕ → Bool → List ℕ → SimplexStream → Option (Poll ℕ × SimplexStream) → Type 0
IsWritten waker closed_now buf s none = ⊥
IsWritten waker closed_now buf s (some (broken_pipe, s')) =
    (s'.closed ≡ true)
    × ((s' ≡ s) ⊎ ((length (contents s) ≡ s.capacity) × (s' ≡ writer_parked waker closed_now s)))
IsWritten waker closed_now buf s (some (pending, s')) =
    (length (contents s) ≡ s.capacity)
    × (s.closed ≡ false)
    × (closed_now ≡ false)
    × (s' ≡ writer_parked waker closed_now s)
IsWritten waker closed_now buf s (some (ready n, s')) =
    (s.closed ≡ false)
    × (n ≡ min (length buf) (free_chunk s))
    × ((n == 0) ≡ true → length buf ≡ 0)
    × IsPut n buf s s'

module _ (s : SimplexStream) (v : IsValid s) where
  -- Where the free space starts.
  tail_at : s.len < s.capacity → (s.ptr + s.len) % s.capacity ≡ wrap s.capacity (s.ptr + s.len)
  tail_at h = wrap_lem s.capacity (s.ptr + s.len) (omega arith) (omega (arith, v.placed))

  outside :
      (start n i : ℕ)
      → start ≡ wrap s.capacity (s.ptr + s.len)
      → s.len + n ≤ s.capacity
      → s.ptr ≤ i
      → i < s.ptr + s.len
      → (wrap s.capacity i < start) ⊎ (start + n ≤ wrap s.capacity i)
  outside start n i e room l m = elim (Bool-cases (ltb (s.ptr + s.len) s.capacity)) [
    | inl f ↦ inl (ground arith)
    | inr f ↦ elim (Bool-cases (ltb i s.capacity)) [
      | inl g ↦ inr (ground arith)
      | inr g ↦ inl (ground arith)
    ]
  ]

  from_start :
      (start n : ℕ) (buffer : ℕ → ℕ)
      → start ≡ wrap s.capacity (s.ptr + s.len)
      → s.len + n ≤ s.capacity
      → ring buffer s.capacity (s.ptr + s.len) n ≡ ring buffer s.capacity start n
  from_start start n buffer e room = elim (Bool-cases (ltb (s.ptr + s.len) s.capacity)) [
    | inl f ↦ ring_at buffer s.capacity (s.ptr + s.len) start n (ground arith)
    | inr f ↦
        ring-wrap buffer s.capacity (s.ptr + s.len) n (ground arith) (omega (arith, v.placed))
        ∙ ring_at buffer s.capacity (s.ptr + s.len - s.capacity) start n (ground arith)
  ]

  -- A copy of bytes to the free space, which has room for them.
  ring-copy :
      (start : ℕ) (bs : List ℕ)
      → start ≡ wrap s.capacity (s.ptr + s.len)
      → start + length bs ≤ s.capacity
      → s.len + length bs ≤ s.capacity
      → ring (copy s.buffer start bs) s.capacity s.ptr (s.len + length bs) ≡ contents s ++ bs
  ring-copy start bs e fits room =
      ring-add (copy s.buffer start bs) s.capacity s.ptr s.len (length bs)
      ∙ ap₂ (λ xs ys. xs ++ ys)
          (ring-same s.buffer s.capacity (copy s.buffer start bs) s.ptr s.len (λ i l m.
            copy-outside s.buffer start bs (wrap s.capacity i)
              (outside start (length bs) i e room l m)))
          (from_start start (length bs) (copy s.buffer start bs) e room
            ∙ sym (slice-ring (copy s.buffer start bs) s.capacity start (length bs) fits)
            ∙ copy-slice s.buffer start bs)

  queue_put :
      (start n m : ℕ) (buf : List ℕ)
      → start ≡ wrap s.capacity (s.ptr + s.len)
      → n ≤ length buf
      → start + n ≤ s.capacity
      → s.len + n ≤ s.capacity
      → m ≡ s.len + n
      → ring (copy s.buffer start (take n buf)) s.capacity s.ptr m ≡ contents s ++ take n buf
  queue_put start n m buf e few fits room total =
      ap (ring (copy s.buffer start (take n buf)) s.capacity s.ptr)
        (omega (arith, length-take n buf))
      ∙ ring-copy start (take n buf) e (omega (arith, length-take n buf))
          (omega (arith, length-take n buf))

  advance_mut-IsPut :
      (waker : ℕ) (closed_now : Bool) (buf : List ℕ) (start n : ℕ)
      → s.closed ≡ false
      → start ≡ wrap s.capacity (s.ptr + s.len)
      → n ≡ min (length buf) (free_chunk s)
      → start + n ≤ s.capacity
      → s.len + n ≤ s.capacity
      → ((n == 0) ≡ true → length buf ≡ 0)
      → IsWritten waker closed_now buf s
          (advanced n (advance_mut n (record s { buffer = copy s.buffer start (take n buf) })))
  unfolding advance_mut
  advance_mut-IsPut waker closed_now buf start n open_ e few fits room why =
      elim (Bool-cases (n == 0)) [
        | inl f ↦ rw f (
          open_,
          few,
          why,
          record {
            valid = record { placed = v.placed; room = v.room };
            queue = queue_put start n s.len buf e (omega arith) fits room (ground arith);
            same_capacity = refl;
            wakes = λ h. absurd (ground arith);
          },
        )
        | inr f ↦
            let g : leb (s.len + n) s.capacity ≡ true = ground arith in
            rw (f, g)
              (
                open_,
                few,
                why,
                record {
                  valid = record { placed = v.placed; room = room };
                  queue = queue_put start n (s.len + n) buf e (omega arith) fits room refl;
                  same_capacity = refl;
                  wakes = λ h. (refl, refl);
                },
              )
      ]

  -- The slice that `get_mut` gives: it starts where the queue ends, and has room for at least one byte.
  abbrev IsFree : ℕ × ℕ → Type 0
  IsFree (start, size) =
      (start ≡ wrap s.capacity (s.ptr + s.len))
      × (start + size ≤ s.capacity)
      × (s.len + size ≤ s.capacity)
      × (1 ≤ size)
      × (size ≡ free_chunk s)

  place-IsFree :
      (start : ℕ)
      → start ≡ wrap s.capacity (s.ptr + s.len)
      → s.len < s.capacity
      → IsFree (if ltb start s.ptr then (start, s.ptr - start) else (start, s.capacity - start))
  place-IsFree start e h = elim (Bool-cases (ltb (s.ptr + s.len) s.capacity)) [
    | inl f ↦
        let same : start ≡ s.ptr + s.len = ground arith in
        let g : ltb start s.ptr ≡ false = ground arith in
        let inside : s.ptr + s.len < s.capacity = ground arith in
        rw g (
          e,
          omega (arith, same, inside),
          omega (arith, same, inside),
          omega (arith, same, inside),
          ground (arith, same),
        )
    | inr f ↦
        let same : start ≡ s.ptr + s.len - s.capacity = ground arith in
        let g : ltb start s.ptr ≡ true = ground (arith, v.placed) in
        rw g (
          e,
          omega (arith, v.placed),
          ground (arith, v.placed),
          ground (arith, v.placed),
          ground (arith, same, v.placed),
        )
  ]

  get_mut-IsFree : (remaining_mut s == 0) ≡ false → IsFree (get_mut s)
  unfolding get_mut
  get_mut-IsFree e = rw e (
      place-IsFree ((s.ptr + s.len) % s.capacity) (tail_at (ground (arith, v.room)))
        (ground (arith, v.room)))

  write_to-IsWritten :
      (waker : ℕ) (closed_now : Bool) (buf : List ℕ) (free : ℕ × ℕ)
      → s.closed ≡ false
      → IsFree free
      → IsWritten waker closed_now buf s (write_to buf (ready free, s))
  write_to-IsWritten waker closed_now buf (start, size) open_ (e, fits, room, one, all) =
      advance_mut-IsPut waker closed_now buf start (min (length buf) size) open_ e
        (ap (min (length buf)) all) (omega arith) (omega arith) (λ f. ground arith)

  poll_mut_ready :
      (waker : ℕ) (closed_now : Bool)
      → s.closed ≡ false
      → (remaining_mut s == 0) ≡ false
      → poll_mut waker closed_now s ≡ (ready (get_mut s), s)
  unfolding poll_mut
  poll_mut_ready waker closed_now f e = simp (f, e)

  closed_mut :
      (waker : ℕ) (closed_now : Bool)
      → s.closed ≡ true
      → poll_mut waker closed_now s ≡ (broken_pipe, s)
  unfolding poll_mut
  closed_mut waker closed_now f = simp f

  full_mut :
      (waker : ℕ) (closed_now : Bool)
      → s.closed ≡ false
      → (remaining_mut s == 0) ≡ true
      → poll_mut waker closed_now s ≡ (
          if closed_now
          then (broken_pipe, writer_parked waker closed_now s)
          else (pending, writer_parked waker closed_now s))
  unfolding poll_mut
  full_mut waker closed_now f e = simp (f, e)

  parked-IsWritten :
      (waker : ℕ) (closed_now : Bool) (buf : List ℕ)
      → s.closed ≡ false
      → (remaining_mut s == 0) ≡ true
      → IsWritten waker closed_now buf s (
          write_to buf (
            if closed_now
            then (broken_pipe, writer_parked waker closed_now s)
            else (pending, writer_parked waker closed_now s)))
  parked-IsWritten waker true buf f e =
      (refl, inr (ground (arith, length-ring s.buffer s.capacity s.ptr s.len, v.room), refl))
  parked-IsWritten waker false buf f e =
      (ground (arith, length-ring s.buffer s.capacity s.ptr s.len, v.room), f, refl, refl)

  write_to-poll_mut :
      (waker : ℕ) (closed_now : Bool) (buf : List ℕ)
      → poll_write_internal waker closed_now buf s ≡ write_to buf (poll_mut waker closed_now s)
  unfolding poll_write_internal
  write_to-poll_mut waker closed_now buf = refl

  poll_mut-IsWritten :
      (waker : ℕ) (closed_now : Bool) (buf : List ℕ)
      → IsWritten waker closed_now buf s (write_to buf (poll_mut waker closed_now s))
  poll_mut-IsWritten waker closed_now buf = elim (Bool-cases s.closed) [
    | inl f ↦ rw (closed_mut waker closed_now f) (f, inl refl)
    | inr f ↦ elim (Bool-cases (remaining_mut s == 0)) [
      | inl e ↦ rw (full_mut waker closed_now f e) (parked-IsWritten waker closed_now buf f e)
      | inr e ↦
          rw (poll_mut_ready waker closed_now f e)
            (write_to-IsWritten waker closed_now buf (get_mut s) f (get_mut-IsFree e))
    ]
  ]

  -- A write to a closed pipe fails. To a pipe with room it appends the first bytes of the buffer, exactly
  -- as many as the free chunk holds, which ends with the buffer or at the read cursor, and wakes the waiting
  -- reader. To a full one it waits, with the task registered both for room and for a close, or fails if
  -- the pipe is found closed once the task is registered.
  pub poll_write_internal-IsWritten :
      (waker : ℕ) (closed_now : Bool) (buf : List ℕ)
      → IsWritten waker closed_now buf s (poll_write_internal waker closed_now buf s)
  poll_write_internal-IsWritten waker closed_now buf =
      rw (write_to-poll_mut waker closed_now buf) (poll_mut-IsWritten waker closed_now buf)
