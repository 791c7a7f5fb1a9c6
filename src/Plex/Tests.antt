-- ===== src/Plex/Tests.antt =====
-- The crate futures-plex: the theorems at concrete pipes.
use tlsn_utils.Base.{◌+◌, ◌≡◌, true, false, none, some, [], ◌∷◌, arith}
use tlsn_utils.Plex.Stream.{SimplexStream, poll_read_internal, poll_write_internal}
use tlsn_utils.Plex.Stream.Queue.{IsValid, IsRead, poll_read_internal-IsRead}
use tlsn_utils.Plex.Stream.Queue.Write.{IsWritten, poll_write_internal-IsWritten}
use tlsn_utils.Plex.Stream.Fifo.{Op, run, IsFifo, run-IsFifo}
use tlsn_utils.Plex.Close.{
  state, parked, finished, Reach, open_, read, close, reader_step, closer_step, Reach-woken,
}

-- Four of five bytes, of which the last wraps round.
abbrev pipe : SimplexStream
pipe = record {
  buffer = λ i. i + 10;
  capacity = 5;
  ptr = 2;
  len = 4;
  closed = false;
  read_closer = none;
  write_closer = none;
  read_waker = some 3;
  write_waker = some 4;
  woken = [];
}

pipe-IsValid : IsValid pipe
pipe-IsValid = record { placed = omega arith; room = omega arith }

pipe_poll_example : IsRead 6 false 2 pipe (poll_read_internal 6 false 2 pipe)
pipe_poll_example = poll_read_internal-IsRead pipe pipe-IsValid 6 false 2

write_pipe_example :
    IsWritten 6 false (1 ∷ 2 ∷ []) pipe (poll_write_internal 6 false (1 ∷ 2 ∷ []) pipe)
write_pipe_example = poll_write_internal-IsWritten pipe pipe-IsValid 6 false (1 ∷ 2 ∷ [])

run_example :
    IsFifo pipe
      (run (Op.read 6 false 2 ∷ Op.write 8 false (1 ∷ 2 ∷ []) ∷ Op.read 6 true 9 ∷ []) pipe)
run_example =
    run-IsFifo (Op.read 6 false 2 ∷ Op.write 8 false (1 ∷ 2 ∷ []) ∷ Op.read 6 true 9 ∷ []) pipe
      pipe-IsValid

-- The reader parks, and then the pipe is closed.
parked-Reach : Reach 7 (state true none parked finished true)
unfolding reader_step closer_step
parked-Reach = close (close (close (read (read (read (open_ none))))))

woken_example : ◌≡◌ true true
woken_example = Reach-woken 7 true true none parked-Reach
