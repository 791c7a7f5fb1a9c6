-- ===== src/Plex/Stream.antt =====
-- futures-plex/src/lib.rs: `SimplexStream`, a ring buffer between a reader and a writer. The buffer is
-- a function from indices below `capacity`. A waker is a number that names a task, and `woken` are the
-- tasks that have been woken, in order. The methods run under the stream's lock. The closing does not:
-- what the flag is once a task has registered is an argument of a poll, and the steps of a close and
-- whom it wakes are in Plex.Close.
pub mod Ring
pub mod Queue
pub mod Fifo
use tlsn_utils.Base.{
  ℕ, zero, suc, ◌+◌, ◌-◌, ◌%◌, min, Bool, true, false, Option, none, some, List, [], ◌∷◌, ◌++◌, ltb,
  leb, ◌==◌, if◌then◌else◌, length, take,
}

pub record SimplexStream : Type 0 where
  pub buffer : ℕ → ℕ
  pub capacity : ℕ
  pub ptr : ℕ
  pub len : ℕ
  pub closed : Bool
  pub read_closer : Option ℕ
  pub write_closer : Option ℕ
  pub read_waker : Option ℕ
  pub write_waker : Option ℕ
  pub woken : List ℕ

unfoldable pub new_unsplit : ℕ → SimplexStream
new_unsplit buf_size = record {
  buffer = λ i. 0;
  capacity = buf_size;
  ptr = 0;
  len = 0;
  closed = false;
  read_closer = none;
  write_closer = none;
  read_waker = none;
  write_waker = none;
  woken = [];
}

abbrev pub remaining_mut : SimplexStream → ℕ
remaining_mut s = s.capacity - s.len

-- `buffer[start..start + n]`
unfoldable pub slice : (ℕ → ℕ) → ℕ → ℕ → List ℕ
slice buffer start zero = []
slice buffer start (suc n) = buffer start ∷ slice buffer (suc start) n

unfoldable pub get : SimplexStream → List ℕ
unfolding slice
get s =
    if s.len == 0
    then []
    else if leb (s.ptr + s.len) s.capacity
    then slice s.buffer s.ptr s.len
    else slice s.buffer s.ptr (s.capacity - s.ptr)

abbrev pub to_wake : Option ℕ → List ℕ
to_wake none = []
to_wake (some w) = w ∷ []

-- `none` is the failed assertion.
unfoldable pub advance : ℕ → SimplexStream → Option SimplexStream
advance amt s =
    if amt == 0
    then some s
    else if leb amt s.len
    then some (record s {
      ptr = (s.ptr + amt) % s.capacity;
      len = s.len - amt;
      write_waker = none;
      woken = s.woken ++ to_wake s.write_waker;
    })
    else none

unfoldable pub advance_mut : ℕ → SimplexStream → Option SimplexStream
advance_mut amt s =
    if amt == 0
    then some s
    else if leb (s.len + amt) s.capacity
    then some
        (record s { len = s.len + amt; read_waker = none; woken = s.woken ++ to_wake s.read_waker })
    else none

-- Where the slice that `get_mut` gives starts, and how long it is.
unfoldable pub get_mut : SimplexStream → ℕ × ℕ
get_mut s =
    if remaining_mut s == 0
    then (0, 0)
    else if ltb ((s.ptr + s.len) % s.capacity) s.ptr
    then ((s.ptr + s.len) % s.capacity, s.ptr - (s.ptr + s.len) % s.capacity)
    else ((s.ptr + s.len) % s.capacity, s.capacity - (s.ptr + s.len) % s.capacity)

-- `copy_from_slice`, to the indices from `start` on.
unfoldable pub copy : (ℕ → ℕ) → ℕ → List ℕ → ℕ → ℕ
copy buffer start [] = buffer
copy buffer start (b ∷ bs) = copy (λ i. if i == start then b else buffer i) (suc start) bs

-- What a poll answers.
pub data Poll (A : Type 0) : Type 0 where
  ready : A → Poll A
  broken_pipe : Poll A
  pending : Poll A

-- What is left once a task has registered and loaded the flag again, which is `closed_now` by then.
abbrev pub reader_parked : ℕ → Bool → SimplexStream → SimplexStream
reader_parked waker closed_now s = record s {
  read_waker = some waker;
  read_closer = some waker;
  closed = closed_now;
}

abbrev pub writer_parked : ℕ → Bool → SimplexStream → SimplexStream
writer_parked waker closed_now s = record s {
  write_waker = some waker;
  write_closer = some waker;
  closed = closed_now;
}

unfoldable pub poll_get : ℕ → Bool → SimplexStream → Poll (List ℕ) × SimplexStream
unfolding get
poll_get waker closed_now s =
    if ltb 0 s.len
    then (ready (get s), s)
    else if s.closed
    then (ready [], s)
    else if closed_now
    then (ready [], reader_parked waker closed_now s)
    else (pending, reader_parked waker closed_now s)

unfoldable pub poll_mut : ℕ → Bool → SimplexStream → Poll (ℕ × ℕ) × SimplexStream
unfolding get_mut
poll_mut waker closed_now s =
    if s.closed
    then (broken_pipe, s)
    else if remaining_mut s == 0
    then (if closed_now
        then (broken_pipe, writer_parked waker closed_now s)
        else (pending, writer_parked waker closed_now s))
    else (ready (get_mut s), s)

-- A panic is `none`.
abbrev pub advanced : {A : Type 0} → A → Option SimplexStream → Option (Poll A × SimplexStream)
advanced a none = none
advanced a (some s) = some (ready a, s)

-- The end of `poll_read_internal`, with room for `size` bytes.
abbrev pub read_from : ℕ → Poll (List ℕ) × SimplexStream → Option (Poll (List ℕ) × SimplexStream)
read_from size (pending, s) = some (pending, s)
read_from size (broken_pipe, s) = some (broken_pipe, s)
read_from size (ready src, s) =
    if length src == 0
    then some (ready [], s)
    else advanced (take (min size (length src)) src) (advance (min size (length src)) s)

unfoldable pub poll_read_internal :
    ℕ → Bool → ℕ → SimplexStream → Option (Poll (List ℕ) × SimplexStream)
unfolding poll_get advance
poll_read_internal waker closed_now size s = read_from size (poll_get waker closed_now s)

abbrev pub write_to : List ℕ → Poll (ℕ × ℕ) × SimplexStream → Option (Poll ℕ × SimplexStream)
write_to buf (pending, s) = some (pending, s)
write_to buf (broken_pipe, s) = some (broken_pipe, s)
write_to buf (ready (start, size), s) = advanced (min (length buf) size) (
    advance_mut (min (length buf) size)
      (record s { buffer = copy s.buffer start (take (min (length buf) size) buf) }))

unfoldable pub poll_write_internal :
    ℕ → Bool → List ℕ → SimplexStream → Option (Poll ℕ × SimplexStream)
unfolding poll_mut advance_mut copy
poll_write_internal waker closed_now buf s = write_to buf (poll_mut waker closed_now s)
