-- ===== src/Mux/Frame/Reader/Laws.antt =====
-- mux/mux/src/frame/io.rs: the reader against the bytes of the transport.
use tlsn_utils.Base.{ℕ, ◌+◌, ◌-◌, ◌≤◌, ◌≡◌, true, List, [], ◌++◌, if◌then◌else◌, length, take}
use tlsn_utils.Mux.Header.{ok, header_size, decode}
use tlsn_utils.Mux.Frame.{Frame}
use tlsn_utils.Mux.Frame.Reader.{
  max_frame_body_len, PollRead, read, ReadState, init, header, body, PollNext, pending, ended,
  failed, frame, is_data,
}

module _ {T : Type 0} (poll_read : ℕ → T → PollRead × T) (content : T → List ℕ) where
  -- What a transport with the bytes `content` to come may answer to a read into `n` bytes, which are
  -- not none: no bytes only at the end.
  abbrev pub IsAnswer : ℕ → T → PollRead × T → Type 0
  IsAnswer n t (PollRead.pending, t') = content t' ≡ content t
  IsAnswer n t (PollRead.failed, t') = content t' ≡ content t
  IsAnswer n t (read bytes, t') =
      (length bytes ≤ n) × (bytes ++ content t' ≡ content t) × (bytes ≡ [] → content t ≡ [])

-- The state after `consumed` bytes of a frame.
abbrev pub Reading : ReadState → List ℕ → Type 0
Reading init consumed = consumed ≡ []
Reading (header offset buffer) consumed =
    (offset ≤ header_size) × (length buffer ≡ header_size) × (consumed ≡ take offset buffer)
Reading (body h offset buffer) consumed =
    (start : List ℕ) × (length start ≡ header_size)
    × (decode start ≡ ok h)
    × (is_data h.tag ≡ true)
    × (h.length ≤ max_frame_body_len)
    × (offset ≤ h.length)
    × (length buffer ≡ h.length)
    × (consumed ≡ start ++ take offset buffer)

-- `bytes` are a frame: a header of 14 bytes, and after it the body, as long as the header says, in a
-- data frame, and nothing in another.
pub record IsFrame (bytes : List ℕ) (f : Frame) : Type 0 where
  pub start : List ℕ
  pub start_size : length start ≡ header_size
  pub header_read : decode start ≡ ok f.header
  pub all : bytes ≡ start ++ f.body
  pub size : length f.body ≡ (if is_data f.header.tag then f.header.length else 0)
  pub bound : length f.body ≤ max_frame_body_len

module _ {T : Type 0} (content : T → List ℕ) where
  -- `consumed` and what the transport had are `consumed'` and what it has.
  abbrev pub Same : List ℕ → T → List ℕ → T → Type 0
  Same consumed t consumed' t' = consumed' ++ content t' ≡ consumed ++ content t

  abbrev pub IsNext : List ℕ → T → PollNext × ReadState × T → Type 0
  IsNext consumed t (frame f, s', t') =
      (s' ≡ init) × ((bytes : List ℕ) × Same consumed t bytes t' × IsFrame bytes f)
  IsNext consumed t (pending, s', t') =
      (consumed' : List ℕ) × Same consumed t consumed' t' × Reading s' consumed'
  IsNext consumed t (ended, s', t') = consumed ++ content t ≡ []
  IsNext consumed t (failed e, s', t') =
      (consumed' : List ℕ) × Same consumed t consumed' t' × Reading s' consumed'

-- Bytes and stages that are left.
abbrev pub remaining : ReadState → ℕ
remaining init = 16 + max_frame_body_len
remaining (header offset buffer) = (header_size - offset) + 1 + max_frame_body_len
remaining (body h offset buffer) = h.length - offset
