-- ===== src/Plex/Stream/Fifo.antt =====
-- futures-plex/src/lib.rs: any sequence of reads and writes of a `SimplexStream`.
use tlsn_utils.Base.{
  ℕ, ◌≤◌, ◌≡◌, sym, subst, ◌∙◌, ap, inl, inr, Bool, Option, none, some, List, [], ◌∷◌, ◌++◌, length,
  take, arith,
}
use mathlib.Core.List.{append-nil, append_assoc}
use tlsn_utils.Plex.Stream.{
  SimplexStream, Poll, ready, broken_pipe, pending, reader_parked, writer_parked,
  poll_read_internal, poll_write_internal,
}
use tlsn_utils.Plex.Stream.Ring.{contents, length-ring}
use tlsn_utils.Plex.Stream.Queue.{IsValid, IsRead, poll_read_internal-IsRead}
use tlsn_utils.Plex.Stream.Queue.Write.{IsWritten, poll_write_internal-IsWritten}

-- A read with the task and the room, or a write with the task and its bytes; the flag is what the closed
-- flag is once the task has registered.
pub data Op : Type 0 where
  read : ℕ → Bool → ℕ → Op
  write : ℕ → Bool → List ℕ → Op

-- The bytes that were read and those that were written, and the stream. A panic is `none`.
abbrev pub Out : Type 0
Out = Option (List ℕ × List ℕ × SimplexStream)

abbrev with_read : List ℕ → Out → Out
with_read bytes none = none
with_read bytes (some (out, into, s)) = some (bytes ++ out, into, s)

abbrev with_written : List ℕ → Out → Out
with_written bytes none = none
with_written bytes (some (out, into, s)) = some (out, bytes ++ into, s)

abbrev after_read : (SimplexStream → Out) → Option (Poll (List ℕ) × SimplexStream) → Out
after_read rest none = none
after_read rest (some (ready bytes, s)) = with_read bytes (rest s)
after_read rest (some (broken_pipe, s)) = rest s
after_read rest (some (pending, s)) = rest s

abbrev after_write : (SimplexStream → Out) → List ℕ → Option (Poll ℕ × SimplexStream) → Out
after_write rest buf none = none
after_write rest buf (some (ready n, s)) = with_written (take n buf) (rest s)
after_write rest buf (some (broken_pipe, s)) = rest s
after_write rest buf (some (pending, s)) = rest s

unfoldable pub run : List Op → SimplexStream → Out
run [] s = some ([], [], s)
run (read waker closed_now size ∷ ops) s =
    after_read (run ops) (poll_read_internal waker closed_now size s)
run (write waker closed_now buf ∷ ops) s =
    after_write (run ops) buf (poll_write_internal waker closed_now buf s)

-- The bytes come out in the order in which they went in, and none is lost or made up.
abbrev pub IsFifo : SimplexStream → Out → Type 0
IsFifo s none = ⊥
IsFifo s (some (out, into, s')) =
    (contents s ++ into ≡ out ++ contents s') × (length (contents s') ≤ s.capacity)

read-IsFifo :
    (s s' : SimplexStream) (bytes : List ℕ) (rest : Out)
    → contents s ≡ bytes ++ contents s'
    → s'.capacity ≡ s.capacity
    → IsFifo s' rest
    → IsFifo s (with_read bytes rest)
read-IsFifo s s' bytes (some (out, into, s'')) e c (h, k) = (
  ap (λ xs. xs ++ into) e
      ∙ append_assoc bytes (contents s') into
      ∙ ap (λ xs. bytes ++ xs) h
      ∙ sym (append_assoc bytes out (contents s'')),
  omega arith,
)
read-IsFifo s s' bytes none e c h = h

write-IsFifo :
    (s s' : SimplexStream) (bytes : List ℕ) (rest : Out)
    → contents s' ≡ contents s ++ bytes
    → s'.capacity ≡ s.capacity
    → IsFifo s' rest
    → IsFifo s (with_written bytes rest)
write-IsFifo s s' bytes (some (out, into, s'')) e c (h, k) =
    (sym (append_assoc (contents s) bytes into) ∙ ap (λ xs. xs ++ into) (sym e) ∙ h, omega arith)
write-IsFifo s s' bytes none e c h = h

-- Any sequence of reads and writes of a pipe ends with no panic: what was read, followed by what is still
-- in the pipe, is what was in it at first, followed by what was written; the pipe never holds more than
-- its capacity.
pub run-IsFifo : (ops : List Op) (s : SimplexStream) → IsValid s → IsFifo s (run ops s)
unfolding run
run-IsFifo [] s v =
    (append-nil (contents s), omega (arith, length-ring s.buffer s.capacity s.ptr s.len, v.room))
run-IsFifo (read waker closed_now size ∷ ops) s v =
    go (poll_read_internal waker closed_now size s)
      (poll_read_internal-IsRead s v waker closed_now size) (run-IsFifo ops)
  where
    go :
        (out : Option (Poll (List ℕ) × SimplexStream))
        → IsRead waker closed_now size s out
        → ((s' : SimplexStream) → IsValid s' → IsFifo s' (run ops s'))
        → IsFifo s (after_read (run ops) out)
    go none h rec = h
    go (some (broken_pipe, s')) h rec = absurd h
    go (some (pending, s')) (e, f, h, g) rec =
        subst (λ t. IsFifo s (run ops t)) (sym g)
          (rec (reader_parked waker closed_now s) (record { placed = v.placed; room = v.room }))
    go (some (ready bytes, s')) (few, why, t) rec =
        read-IsFifo s s' bytes (run ops s') t.queue t.same_capacity (rec s' t.valid)
run-IsFifo (write waker closed_now buf ∷ ops) s v =
    go (poll_write_internal waker closed_now buf s)
      (poll_write_internal-IsWritten s v waker closed_now buf) (run-IsFifo ops)
  where
    go :
        (out : Option (Poll ℕ × SimplexStream))
        → IsWritten waker closed_now buf s out
        → ((s' : SimplexStream) → IsValid s' → IsFifo s' (run ops s'))
        → IsFifo s (after_write (run ops) buf out)
    go none h rec = h
    go (some (broken_pipe, s')) (e, inl g) rec = subst (λ t. IsFifo s (run ops t)) (sym g) (rec s v)
    go (some (broken_pipe, s')) (e, inr (f, g)) rec =
        subst (λ t. IsFifo s (run ops t)) (sym g)
          (rec (writer_parked waker closed_now s) (record { placed = v.placed; room = v.room }))
    go (some (pending, s')) (e, f, h, g) rec =
        subst (λ t. IsFifo s (run ops t)) (sym g)
          (rec (writer_parked waker closed_now s) (record { placed = v.placed; room = v.room }))
    go (some (ready n, s')) (e, few, why, t) rec =
        write-IsFifo s s' (take n buf) (run ops s') t.queue t.same_capacity (rec s' t.valid)
