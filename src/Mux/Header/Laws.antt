-- ===== src/Mux/Header/Laws.antt =====
-- mux/mux/src/frame/header.rs: `encode` and `decode` against each other.
use tlsn_utils.Base.{
  ℕ, zero, suc, inl, inr, ◌⊎◌, ◌/◌, ◌%◌, ◌^◌, ◌<◌, ◌≡◌, refl, List, [], ◌∷◌, arith, IsByte, IsU32,
  All, length, head?, some, ◌++◌,
}
use tlsn_utils.Mux.Header.{
  Tag, data_, window_update_, ping_, go_away_, StreamId, Header, encode, decode, decode_tag,
  tag_byte, to_be_bytes, from_be_bytes, id_bytes, Decoded, ok, unknown_type, not_a_header,
  header_size,
}

-- A header whose fields fit their Rust types `u8`, `u32` and `[u8; 8]`.
pub record IsHeader (h : Header) : Type 0 where
  pub flags_byte : IsByte h.flags
  pub length_u32 : IsU32 h.length
  pub id_in_bytes : All IsByte (id_bytes h.stream_id)

from-to_be_bytes :
    (n : ℕ)
    → IsU32 n
    → from_be_bytes (n / 2 ^ 24 % 256) (n / 2 ^ 16 % 256) (n / 2 ^ 8 % 256) (n % 256) ≡ n
from-to_be_bytes n h = omega arith

decode_tag-tag_byte : (t : Tag) (k : Tag → Decoded) → decode_tag (tag_byte t) k ≡ k t
decode_tag-tag_byte data_ k = refl
decode_tag-tag_byte window_update_ k = refl
decode_tag-tag_byte ping_ k = refl
decode_tag-tag_byte go_away_ k = refl

-- `decode` reads back every header that `encode` wrote.
pub decode-encode : (h : Header) → IsHeader h → decode (encode h) ≡ ok h
unfolding decode encode
decode-encode h v = rw (decode_tag-tag_byte, from-to_be_bytes h.length v.length_u32)

-- `encode` writes an array of `HEADER_SIZE` bytes.
pub encode_bytes :
    (h : Header) → IsHeader h → (length (encode h) ≡ header_size) × All IsByte (encode h)
unfolding encode
encode_bytes h v = go h.tag h.flags h.length h.stream_id v.flags_byte v.id_in_bytes
  where
    go :
        (t : Tag) (f n : ℕ) (i : StreamId)
        → IsByte f
        → All IsByte (id_bytes i)
        → (◌≡◌ {A = ℕ} 14 14) × All IsByte (tag_byte t ∷ f ∷ (to_be_bytes n ++ id_bytes i))
    go data_ f n i h k = omega arith
    go window_update_ f n i h k = omega arith
    go ping_ f n i h k = omega arith
    go go_away_ f n i h k = omega arith

-- What `decode` says of 14 bytes: an error that names the first byte exactly if it is no frame type,
-- and else a header of fields in range that `encode` writes as the same bytes.
abbrev IsDecoded : List ℕ → Decoded → Type 0
IsDecoded buf (ok h) = IsHeader h × (encode h ≡ buf)
IsDecoded buf (unknown_type t) = (3 < t) × (head? buf ≡ some t)
IsDecoded buf not_a_header = ⊥

decode_tag-cases :
    (t : ℕ)
    → ((3 < t) × ((k : Tag → Decoded) → decode_tag t k ≡ unknown_type t))
      ⊎ ((tag : Tag) × (tag_byte tag ≡ t) × ((k : Tag → Decoded) → decode_tag t k ≡ k tag))
decode_tag-cases zero = inr (data_, refl, λ k. refl)
decode_tag-cases (suc zero) = inr (window_update_, refl, λ k. refl)
decode_tag-cases (suc (suc zero)) = inr (ping_, refl, λ k. refl)
decode_tag-cases (suc (suc (suc zero))) = inr (go_away_, refl, λ k. refl)
decode_tag-cases (suc (suc (suc (suc n)))) = inl (omega arith, λ k. ground arith)

to-from_be_bytes :
    (a b c d : ℕ)
    → All IsByte (a ∷ b ∷ c ∷ d ∷ [])
    → to_be_bytes (from_be_bytes a b c d) ≡ a ∷ b ∷ c ∷ d ∷ []
to-from_be_bytes a b c d h =
    let n = from_be_bytes a b c d in
    let ea : n / 2 ^ 24 % 256 ≡ a = omega arith in
    let eb : n / 2 ^ 16 % 256 ≡ b = omega arith in
    let ec : n / 2 ^ 8 % 256 ≡ c = omega arith in
    let ed : n % 256 ≡ d = omega arith in cc (ea, eb, ec, ed)

-- On 14 bytes `decode` fails exactly with the first byte where that is no frame type, and else gives a
-- header of fields in range that `encode` writes as the same bytes.
decode-IsDecoded :
    (t f l0 l1 l2 l3 : ℕ) (i : StreamId)
    → let buf = t ∷ f ∷ l0 ∷ l1 ∷ l2 ∷ l3 ∷ id_bytes i in
      All IsByte buf → IsDecoded buf (decode buf)
unfolding decode encode
decode-IsDecoded t f l0 l1 l2 l3 i h = elim (decode_tag-cases t) [
  | inl (big, e) ↦ rw e (big, refl)
  | inr (tag, same, e) ↦ rw e (
    record { flags_byte = h.1.0; length_u32 = omega arith; id_in_bytes = h.1.1.1.1.1.1 },
    cc (same, to-from_be_bytes l0 l1 l2 l3 (omega arith)),
  )
]
