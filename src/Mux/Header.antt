-- ===== src/Mux/Header.antt =====
-- mux/mux/src/frame/header.rs: the frame header, its flags and its 14 byte encoding. The phantom type
-- parameter of `Header<T>` has no value and is left out.
pub mod Laws
pub mod Flags
use tlsn_utils.Base.{
  ℕ, ◌+◌, ◌*◌, ◌/◌, ◌%◌, ◌^◌, Bool, List, [], ◌∷◌, ◌++◌, ◌==◌, ◌&&◌, if◌then◌else◌,
}
use Prim.Native.Nat.{bit_and, bit_or}

pub data Tag : Type 0 where
  data_ window_update_ ping_ go_away_ : Tag

-- `StreamId([u8; 8])`
pub record StreamId : Type 0 where
  pub b0 : ℕ
  pub b1 : ℕ
  pub b2 : ℕ
  pub b3 : ℕ
  pub b4 : ℕ
  pub b5 : ℕ
  pub b6 : ℕ
  pub b7 : ℕ

pub record Header : Type 0 where
  pub tag : Tag
  pub flags : ℕ
  pub stream_id : StreamId
  pub length : ℕ

abbrev pub connection_id : StreamId
connection_id = record { b0 = 0; b1 = 0; b2 = 0; b3 = 0; b4 = 0; b5 = 0; b6 = 0; b7 = 0 }

unfoldable pub is_session : StreamId → Bool
is_session i =
    i.b0 == 0
    && i.b1 == 0
    && i.b2 == 0
    && i.b3 == 0
    && i.b4 == 0
    && i.b5 == 0
    && i.b6 == 0
    && i.b7 == 0

abbrev pub fin_flag : ℕ
fin_flag = 0x01

abbrev pub rst_flag : ℕ
rst_flag = 0x02

abbrev pub syn_flag : ℕ
syn_flag = 0x04

abbrev pub ack_flag : ℕ
ack_flag = 0x08

-- `Flags::contains`
unfoldable pub contains : ℕ → ℕ → Bool
contains flags other = bit_and flags other == other

unfoldable pub syn : Header → Header
syn h = record h { flags = bit_or h.flags syn_flag }

unfoldable pub ack : Header → Header
ack h = record h { flags = bit_or h.flags ack_flag }

unfoldable pub fin : Header → Header
fin h = record h { flags = bit_or h.flags fin_flag }

unfoldable pub rst : Header → Header
rst h = record h { flags = bit_or h.flags rst_flag }

unfoldable pub data_header : StreamId → ℕ → Header
data_header id len = record { tag = data_; flags = 0; stream_id = id; length = len }

unfoldable pub window_update : StreamId → ℕ → Header
window_update id credit = record {
  tag = window_update_;
  flags = 0;
  stream_id = id;
  length = credit;
}

unfoldable pub ping : ℕ → Header
ping nonce = record { tag = ping_; flags = 0; stream_id = connection_id; length = nonce }

unfoldable pub go_away : ℕ → Header
go_away code = record { tag = go_away_; flags = 0; stream_id = connection_id; length = code }

unfoldable pub term : Header
unfolding go_away
term = go_away 0

unfoldable pub protocol_error : Header
unfolding go_away
protocol_error = go_away 1

unfoldable pub internal_error : Header
unfolding go_away
internal_error = go_away 2

abbrev pub header_size : ℕ
header_size = 14

-- `hdr.tag as u8`
abbrev pub tag_byte : Tag → ℕ
tag_byte data_ = 0
tag_byte window_update_ = 1
tag_byte ping_ = 2
tag_byte go_away_ = 3

-- `u32::to_be_bytes` and `u32::from_be_bytes`
abbrev pub to_be_bytes : ℕ → List ℕ
to_be_bytes n = (n / 2 ^ 24 % 256) ∷ (n / 2 ^ 16 % 256) ∷ (n / 2 ^ 8 % 256) ∷ (n % 256) ∷ []

abbrev pub from_be_bytes : ℕ → ℕ → ℕ → ℕ → ℕ
from_be_bytes a b c d = a * 2 ^ 24 + b * 2 ^ 16 + c * 2 ^ 8 + d

abbrev pub id_bytes : StreamId → List ℕ
id_bytes i = i.b0 ∷ i.b1 ∷ i.b2 ∷ i.b3 ∷ i.b4 ∷ i.b5 ∷ i.b6 ∷ i.b7 ∷ []

unfoldable pub encode : Header → List ℕ
encode hdr = tag_byte hdr.tag ∷ hdr.flags ∷ (to_be_bytes hdr.length ++ id_bytes hdr.stream_id)

-- `HeaderDecodeError::Type` carries the unknown byte. `not_a_header` is no value of the source: the
-- list is not an array of 14 bytes, which the type `&[u8; HEADER_SIZE]` rules out.
pub data Decoded : Type 0 where
  ok : Header → Decoded
  unknown_type : ℕ → Decoded
  not_a_header : Decoded

abbrev pub decode_tag : ℕ → (Tag → Decoded) → Decoded
decode_tag t k =
    if t == 0
    then k data_
    else if t == 1
    then k window_update_
    else if t == 2
    then k ping_
    else if t == 3
    then k go_away_
    else unknown_type t

unfoldable pub decode : List ℕ → Decoded
decode (t ∷ f ∷ l0 ∷ l1 ∷ l2 ∷ l3 ∷ i0 ∷ i1 ∷ i2 ∷ i3 ∷ i4 ∷ i5 ∷ i6 ∷ i7 ∷ []) =
    decode_tag t λ tag. ok (record {
      tag = tag;
      flags = f;
      length = from_be_bytes l0 l1 l2 l3;
      stream_id = record { b0 = i0; b1 = i1; b2 = i2; b3 = i3; b4 = i4; b5 = i5; b6 = i6; b7 = i7 };
    })
decode buf = not_a_header
