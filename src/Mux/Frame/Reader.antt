-- ===== src/Mux/Frame/Reader.antt =====
-- mux/mux/src/frame/io.rs: the reading half of `Io`, a state machine that collects a header and then a
-- body from reads of any size. The transport's `poll_read` is a parameter.
pub mod Laws
pub mod Buffer
pub mod Rounds
pub mod Loop
pub mod RoundTrip
use tlsn_utils.Base.{
  ℕ, zero, suc, ◌+◌, ◌-◌, ◌*◌, ◌<◌, ◌≡◌, Bool, true, false, not, Option, none, some, List, [], ◌∷◌,
  ◌++◌, Run, done, out_of_fuel, ltb, ◌==◌, if◌then◌else◌, length, take, drop, replicate,
}
use tlsn_utils.Mux.Header.{
  Header, Tag, data_, window_update_, ping_, go_away_, Decoded, ok, not_a_header, header_size,
  decode,
}
use tlsn_utils.Mux.Frame.{Frame, new}

abbrev pub max_frame_body_len : ℕ
max_frame_body_len = 1024 * 1024

-- What `poll_read` answers: the bytes it has put at the start of the buffer.
pub data PollRead : Type 0 where
  pending : PollRead
  failed : PollRead
  read : List ℕ → PollRead

pub data ReadState : Type 0 where
  init : ReadState
  header : ℕ → List ℕ → ReadState
  body : Header → ℕ → List ℕ → ReadState

pub data FrameDecodeError : Type 0 where
  io : FrameDecodeError
  unexpected_eof : FrameDecodeError
  unknown_type : ℕ → FrameDecodeError
  frame_too_large : ℕ → FrameDecodeError

-- `ended` is `Poll::Ready(None)`.
pub data PollNext : Type 0 where
  pending : PollNext
  ended : PollNext
  failed : FrameDecodeError → PollNext
  frame : Frame → PollNext

-- One round of the `loop`: `return`, or the next round. The transport has the state `T`.
pub data Control (T : Type 0) : Type 0 where
  give : PollNext → ReadState → T → Control T
  again : ReadState → T → Control T

abbrev pub is_data : Tag → Bool
is_data data_ = true
is_data window_update_ = false
is_data ping_ = false
is_data go_away_ = false

-- The buffer once `bytes` are read into it from `offset` on.
abbrev pub write_at : ℕ → List ℕ → List ℕ → List ℕ
write_at offset bytes buffer = take offset buffer ++ (bytes ++ drop (offset + length bytes) buffer)

module _ {T : Type 0} (poll_read : ℕ → T → PollRead × T) where
  abbrev pub header_done : List ℕ → T → Decoded → Control T
  header_done buffer t (ok h) =
      if not (is_data h.tag)
      then give (frame (new h)) init t
      else if ltb max_frame_body_len h.length
      then give (failed (frame_too_large h.length)) (header header_size buffer) t
      else again (body h 0 (replicate h.length 0)) t
  header_done buffer t (Decoded.unknown_type n) =
      give (failed (unknown_type n)) (header header_size buffer) t
  header_done buffer t not_a_header = give (failed io) (header header_size buffer) t

  abbrev pub header_read : ℕ → List ℕ → PollRead × T → Control T
  header_read offset buffer (PollRead.pending, t) = give pending (header offset buffer) t
  header_read offset buffer (PollRead.failed, t) = give (failed io) (header offset buffer) t
  header_read offset buffer (read bytes, t) =
      if length bytes == 0
      then give (if offset == 0 then ended else failed unexpected_eof) (header offset buffer) t
      else again (header (offset + length bytes) (write_at offset bytes buffer)) t

  abbrev pub body_read : Header → ℕ → List ℕ → PollRead × T → Control T
  body_read h offset buffer (PollRead.pending, t) = give pending (body h offset buffer) t
  body_read h offset buffer (PollRead.failed, t) = give (failed io) (body h offset buffer) t
  body_read h offset buffer (read bytes, t) =
      if length bytes == 0
      then give (failed unexpected_eof) (body h offset buffer) t
      else again (body h (offset + length bytes) (write_at offset bytes buffer)) t

  unfoldable pub round : ReadState → T → Control T
  round init t = again (header 0 (replicate header_size 0)) t
  round (header offset buffer) t =
      if offset == header_size
      then header_done buffer t (decode buffer)
      else header_read offset buffer (poll_read (header_size - offset) t)
  round (body h offset buffer) t =
      if offset == h.length
      then give (frame (record { header = h; body = buffer })) init t
      else body_read h offset buffer (poll_read (h.length - offset) t)

  unfoldable pub poll_next : ℕ → ReadState → T → Run (PollNext × ReadState × T)
  poll_next zero s t = out_of_fuel
  poll_next (suc fuel) s t = elim (round s t) [
    | give item s' t' ↦ done (item, s', t')
    | again s' t' ↦ poll_next fuel s' t'
  ]
