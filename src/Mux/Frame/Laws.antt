-- ===== src/Mux/Frame/Laws.antt =====
-- mux/mux/src/frame.rs: the header of a data frame against its body.
use tlsn_utils.Base.{
  ℕ, ◌≤◌, ◌<◌, Bool-cases, inl, inr, leb→le, ◌≡◌, refl, Option, none, some, List, length, leb,
  arith, IsByte, All, u32_max,
}
use tlsn_utils.Mux.Header.{StreamId, encode, decode, ok, id_bytes, data_header}
use tlsn_utils.Mux.Header as Header
use tlsn_utils.Mux.Header.Laws.{decode-encode}
use tlsn_utils.Mux.Frame.{Frame, data_frame}

-- What `data_frame` gives for `b`.
abbrev pub IsDataFrame : StreamId → List ℕ → Option Frame → Type 0
IsDataFrame id b none = u32_max < length b
IsDataFrame id b (some f) =
    (f.body ≡ b)
    × (length b ≤ u32_max)
    × (decode (encode f.header)
        ≡ ok (record { tag = Header.data_; flags = 0; stream_id = id; length = length b }))

-- A data frame is refused exactly if its body is longer than `u32::MAX`. Else its body is the given one
-- and its header, encoded and decoded, is that of a data frame of the stream with the body's length and
-- no flags.
pub data_frame-IsDataFrame :
    (id : StreamId) (b : List ℕ) → All IsByte (id_bytes id) → IsDataFrame id b (data_frame id b)
unfolding data_frame data_header
data_frame-IsDataFrame id b v = elim (Bool-cases (leb (length b) u32_max)) [
  | inl e ↦
      let h : length b ≤ u32_max = leb→le (length b) u32_max e in
      rw e (
        refl,
        h,
        decode-encode (data_header id (length b))
            (record { flags_byte = omega arith; length_u32 = h; id_in_bytes = v }),
      )
  | inr e ↦ rw e (ground arith)
]
