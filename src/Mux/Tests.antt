-- ===== src/Mux/Tests.antt =====
-- mux/mux: the theorems at concrete states.
use tlsn_utils.Base.{
  ℕ, zero, suc, ◌*◌, ◌<◌, ◌≡◌, refl, ◌⊎◌, true, false, none, some, List, [], ◌∷◌, ◌++◌, length,
  take, drop, min, arith, Returns, done, take-append-drop, length-take,
}
use tlsn_utils.Mux.Config.{
  Config, default_config, Setting, build_config, build, Built, IsBuilt, default_credit,
  saturating_mul, build_lem, receive_window_too_small,
}
use tlsn_utils.Mux.Header.{
  Header, StreamId, connection_id, data_, ping_, id_bytes, encode, decode, contains,
}
use tlsn_utils.Mux.Header as Header
use tlsn_utils.Mux.Header.Laws.{IsHeader, decode-encode}
use tlsn_utils.Mux.Frame.{Frame}
use tlsn_utils.Mux.Frame.Reader.{PollRead, read, init, poll_next}
use tlsn_utils.Mux.Frame.Reader.Laws.{IsAnswer, IsNext}
use tlsn_utils.Mux.Frame.Reader.Loop.{poll_next-IsNext}
use tlsn_utils.Mux.Frame.Reader.RoundTrip.{IsSent, IsRead, poll_next-IsRead}
use tlsn_utils.Mux.Frame.Writer.{
  PollWrite, took, WriteState, start_send, poll_ready, header_written, body_written, round, after,
}
use tlsn_utils.Mux.Frame.Writer as Writer
use tlsn_utils.Mux.Frame.Writer.Laws.{IsTaken, IsReady}
use tlsn_utils.Mux.Frame.Writer.Loop.{poll_ready-IsReady}
use tlsn_utils.Mux.Frame.Writer.RoundTrip.{start_send-poll_next}
use tlsn_utils.Mux.Flow.{FlowController, Pooled, next_window_update}
use tlsn_utils.Mux.Flow.{assert_invariants, auto_tune, grant}
use tlsn_utils.Mux.Flow as Flow
use tlsn_utils.Mux.Flow.Drop.{IsReleased, next_window_update-drop}
use tlsn_utils.Mux.Flow.Update as Update
use tlsn_utils.Mux.Flow.Update.{Updated, next_window_update-Updated}
use tlsn_utils.Mux.Chunks.{Chunk, Chunks, copy_out}
use tlsn_utils.Mux.Chunks.Laws.{IsValid, unread_of}
use tlsn_utils.Mux.Chunks.Copy.{Got, copy_out-Got}
use tlsn_utils.Mux.Stream.{Shared, open_}
use tlsn_utils.Mux.Rtt as Rtt
use tlsn_utils.Mux.Rtt.Trace as Trace
use tlsn_utils.Mux.Rtt.Trace.{Event, test, got_pong}

abbrev id : StreamId
id = record { b0 = 1; b1 = 2; b2 = 3; b3 = 4; b4 = 5; b5 = 6; b6 = 7; b7 = 8 }

abbrev header : Header
header = record { tag = data_; flags = 4; stream_id = id; length = 2 }

header-IsHeader : IsHeader header
header-IsHeader = record {
  flags_byte = omega arith;
  length_u32 = omega arith;
  id_in_bytes = omega arith;
}

decode_example : decode (encode header) ≡ Header.ok header
decode_example = decode-encode header header-IsHeader

-- A transport that gives five bytes at a time.
abbrev slow_read : ℕ → List ℕ → PollRead × List ℕ
slow_read n t = (read (take (min n 5) t), drop (min n 5) t)

abbrev slow_content : List ℕ → List ℕ
slow_content t = t

take-none : (k : ℕ) (t : List ℕ) → 0 < k → take k t ≡ [] → t ≡ []
take-none zero t h e = absurd (omega arith)
take-none (suc k) [] h e = refl
take-none (suc k) (x ∷ t) h e = cc

slow_answers : (n : ℕ) (u : List ℕ) → 0 < n → IsAnswer slow_read slow_content n u (slow_read n u)
slow_answers n u h = (
  omega (arith, length-take (min n 5) u),
  take-append-drop (min n 5) u,
  λ e. take-none (min n 5) u (omega arith) e,
)

abbrev sent : Frame
sent = record { header = header; body = 7 ∷ 9 ∷ [] }

sent-IsSent : IsSent sent
sent-IsSent = record { header = header-IsHeader; size = refl }

abbrev wire : List ℕ
wire = encode header ++ ((7 ∷ 9 ∷ []) ++ (1 ∷ 2 ∷ 3 ∷ []))

next_example : Returns (poll_next slow_read 2000000 init wire) (IsNext slow_content [] wire)
next_example =
    poll_next-IsNext slow_read slow_content slow_answers 2000000 init [] wire refl (omega arith)

read_example :
    Returns (poll_next slow_read 2000000 init wire) (IsRead slow_content sent (1 ∷ 2 ∷ 3 ∷ []))
read_example =
    poll_next-IsRead slow_read slow_content sent (1 ∷ 2 ∷ 3 ∷ []) slow_answers 2000000 wire
      sent-IsSent refl (omega arith)

-- A transport that takes at most three bytes at a time.
abbrev slow_write : List ℕ → List ℕ → PollWrite × List ℕ
slow_write bytes t = (took (min 3 (length bytes)), t ++ take (min 3 (length bytes)) bytes)

slow-IsTaken : (bytes t : List ℕ) → IsTaken slow_content bytes t (slow_write bytes t)
slow-IsTaken bytes t = (omega arith, refl)

ready_example :
    Returns
      (poll_ready slow_write 40 (Writer.body (1 ∷ 2 ∷ 3 ∷ 4 ∷ []) 1) (9 ∷ []))
      (IsReady slow_content (Writer.body (1 ∷ 2 ∷ 3 ∷ 4 ∷ []) 1) (9 ∷ []))
ready_example =
    poll_ready-IsReady slow_write slow_content slow-IsTaken 40 (Writer.body (1 ∷ 2 ∷ 3 ∷ 4 ∷ []) 1)
      (9 ∷ []) (omega arith) (omega arith)

abbrev sent_bytes : List ℕ
sent_bytes = 0 ∷ 4 ∷ 0 ∷ 0 ∷ 0 ∷ 2 ∷ 1 ∷ 2 ∷ 3 ∷ 4 ∷ 5 ∷ 6 ∷ 7 ∷ 8 ∷ 7 ∷ 9 ∷ []

sent-length : length (encode sent.header ++ sent.body) < 40
unfolding encode
sent-length = omega arith

sent_over :
    poll_ready slow_write 40 (start_send sent) [] ≡ done (Writer.ok, Writer.init, sent_bytes)
unfolding poll_ready round start_send encode
sent_over = refl

io_example : Returns (poll_next slow_read 2000000 init sent_bytes) (IsRead slow_content sent [])
io_example =
    start_send-poll_next slow_write slow_content slow_read slow_content slow-IsTaken slow_answers 40
      2000000 sent [] sent_bytes Writer.init sent_bytes sent-IsSent sent-length (omega arith) refl
      sent_over refl

abbrev settings : List Setting
settings = Setting.max_num_streams 0 ∷ Setting.max_connection_receive_window (some 5) ∷ []

build_example :
    let c = build_config settings default_config in
    ((build c ≡ Built.ok c) × IsBuilt c)
    ⊎ ((window : ℕ) × (c.max_connection_receive_window ≡ some window)
        × (window < c.max_num_streams * default_credit)
        × (build c
            ≡ receive_window_too_small window c.max_num_streams
                (saturating_mul c.max_num_streams default_credit)))
build_example = build_lem settings

abbrev config : Config
config = record {
  max_connection_receive_window = some (1024 * 1024 * 1024);
  max_num_streams = 512;
  read_after_close = true;
  split_send_size = 16 * 1024;
  close_sync = false;
  keep_alive = false;
}

abbrev controller : FlowController
controller = record {
  config = config;
  last_window_update = 0;
  receive_window = 1000;
  max_receive_window = default_credit;
  send_window = 20;
}

abbrev pooled : Pooled
pooled = record { rtt = some 50; accumulated = 0 }

controller-IsValid : Update.IsValid controller pooled
controller-IsValid = record {
  one_stream = omega arith;
  received = omega arith;
  least = omega arith;
  word = omega arith;
  share = omega arith;
  pool = omega arith;
  limit_word = omega arith;
  untuned = λ e. refl;
}

next_window_update_example :
    Updated controller pooled 10 (next_window_update controller pooled 10 60 1000)
next_window_update_example =
    next_window_update-Updated controller pooled 10 60 1000 controller-IsValid (omega arith)

abbrev tuned : FlowController
tuned = record controller {
  last_window_update = 1000;
  receive_window = 524278;
  max_receive_window = 2 * default_credit;
}

abbrev pooled_more : Pooled
pooled_more = record { rtt = some 50; accumulated = default_credit }

tuned_update :
    next_window_update controller pooled 10 60 1000 ≡ some (some 523278, tuned, pooled_more)
unfolding next_window_update assert_invariants auto_tune grant
tuned_update = refl

drop_example : IsReleased controller.max_receive_window pooled (Flow.drop tuned pooled_more)
drop_example =
    next_window_update-drop controller tuned pooled pooled_more 10 60 1000 (some 523278)
      controller-IsValid (omega arith) tuned_update

abbrev queue : List Chunk
queue =
    record { bytes = 1 ∷ 2 ∷ 3 ∷ []; position = 1 }
    ∷ record { bytes = 4 ∷ 5 ∷ []; position = 0 }
    ∷ []

abbrev buffer : Chunks
buffer = record { seq = queue; total = 5 }

buffer-IsValid : IsValid buffer
buffer-IsValid = record { sum = refl; within = omega arith; behind = (refl, tt) }

copy_out_example :
    Returns (copy_out 10 (record { seq = queue; total = 5 }) 3 []) (Got (unread_of queue) 3 [])
copy_out_example = copy_out-Got 10 queue 5 3 [] buffer-IsValid (omega arith)

abbrev shared : Shared
shared = record {
  state = open_;
  flow_controller = controller;
  buffer = buffer;
  reader = none;
  writer = none;
  activated = true;
  syn_pending = true;
}

abbrev events : List Event
events =
    test 4 4 41
    ∷ test 7 8 42
    ∷ test 9 9 43
    ∷ got_pong 43 10 10
    ∷ got_pong 42 11 12
    ∷ test 10000000011 10000000011 44
    ∷ test 10000000012 10000000013 45
    ∷ []
