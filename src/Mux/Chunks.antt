-- ===== src/Mux/Chunks.antt =====
-- mux/mux/src/chunks.rs: the byte buffer of a stream, a queue of chunks that are read in steps, and the
-- loop of `poll_read` (mux/mux/src/connection/stream.rs) that empties it.
pub mod Laws
pub mod Copy
use tlsn_utils.Base.{
  ℕ, zero, suc, ◌+◌, ◌-◌, Bool, true, false, Option, none, some, List, [], ◌∷◌, ◌++◌, Run, done,
  out_of_fuel, ◌>>=◌, leb, ◌==◌, if◌then◌else◌, length, take, drop, min, head?, tail,
}

-- A cursor over a vector of bytes.
pub record Chunk : Type 0 where
  pub bytes : List ℕ
  pub position : ℕ

abbrev pub chunk_len : Chunk → ℕ
chunk_len c = length c.bytes - c.position

abbrev pub chunk_is_empty : Chunk → Bool
chunk_is_empty c = chunk_len c == 0

-- `as_ref`
abbrev pub chunk_rest : Chunk → List ℕ
chunk_rest c = drop c.position c.bytes

-- `none` is the failed assertion.
unfoldable pub advance : Chunk → ℕ → Option Chunk
advance c amount =
    if leb (c.position + amount) (length c.bytes)
    then some (record c { position = c.position + amount })
    else none

pub record Chunks : Type 0 where
  pub seq : List Chunk
  pub total : ℕ

unfoldable pub new : Chunks
new = record { seq = []; total = 0 }

abbrev front_offset : List Chunk → ℕ
front_offset [] = 0
front_offset (c ∷ rest) = c.position

unfoldable pub len : Chunks → ℕ
len s = s.total - front_offset s.seq

unfoldable pub push : Chunks → List ℕ → Chunks
push s x = record {
  seq = (if length x == 0 then s.seq else s.seq ++ (record { bytes = x; position = 0 } ∷ []));
  total = s.total + length x;
}

abbrev chunk_size : List Chunk → ℕ
chunk_size [] = 0
chunk_size (c ∷ rest) = chunk_len c + c.position

unfoldable pub pop : Chunks → Option Chunk × Chunks
pop s = (head? s.seq, record { seq = tail s.seq; total = s.total - chunk_size s.seq })

-- What the loop of `poll_read` has copied and what is left. `none` is a panic of `advance`.
abbrev pub Copied : Type 0
Copied = Run (Option (List ℕ × Chunks))

abbrev put_front : Chunk → Chunks → Chunks
put_front c s = record s { seq = c ∷ tail s.seq }

-- `while let Some(chunk) = buffer.front_mut() { … }`, with room for `room` more bytes, `out` copied.
unfoldable pub copy_out : ℕ → Chunks → ℕ → List ℕ → Copied
copy_out zero s room out = out_of_fuel
copy_out (suc fuel) s room out = elim (head? s.seq) [
  | none ↦ done (some (out, s))
  | some chunk ↦
      let k = min (chunk_len chunk) room in
      let popped = copy_out fuel (pop s).1 room out in
      let out' = out ++ take k (chunk_rest chunk) in
      if chunk_is_empty chunk then popped else elim (advance chunk k) [
        | none ↦ done none
        | some chunk' ↦
            let more = copy_out fuel (put_front chunk' s) (room - k) out' in
            if room - k == 0 then done (some (out', put_front chunk' s)) else more
      ]
]
