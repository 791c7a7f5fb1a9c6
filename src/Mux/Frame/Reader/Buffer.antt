-- ===== src/Mux/Frame/Reader/Buffer.antt =====
-- mux/mux/src/frame/io.rs: what a read writes into the buffer, and what it takes off the transport.
use tlsn_utils.Base.{
  ℕ, zero, suc, ◌+◌, ◌≤◌, ◌≡◌, refl, ap, sym, ◌∙◌, true, List, [], ◌∷◌, ◌++◌, arith, ◌==◌, length,
  take, drop, length-append, length-take, length-drop,
}
use mathlib.Core.List.{append_assoc}
use tlsn_utils.Mux.Frame.Reader.{write_at}
use tlsn_utils.Mux.Frame.Reader.Laws.{Same}

pub length-write_at :
    (offset : ℕ) (bytes buffer : List ℕ)
    → offset + length bytes ≤ length buffer
    → length (write_at offset bytes buffer) ≡ length buffer
length-write_at offset bytes buffer h = omega (
  arith,
  length-append (take offset buffer) (bytes ++ drop (offset + length bytes) buffer),
  length-append bytes (drop (offset + length bytes) buffer),
  length-take offset buffer,
  length-drop (offset + length bytes) buffer,
)

pub take-length : (xs ys : List ℕ) → take (length xs) (xs ++ ys) ≡ xs
take-length [] ys = refl
take-length (x ∷ xs) ys = ap (λ zs. x ∷ zs) (take-length xs ys)

pub take-write_at :
    (offset : ℕ) (bytes buffer : List ℕ)
    → offset + length bytes ≤ length buffer
    → take (offset + length bytes) (write_at offset bytes buffer) ≡ take offset buffer ++ bytes
take-write_at offset bytes buffer h =
    let front = take offset buffer ++ bytes in
    let rest = drop (offset + length bytes) buffer in
    let n : length front ≡ offset + length bytes =
      omega (arith, length-append (take offset buffer) bytes, length-take offset buffer) in
    ap (λ i. take i (write_at offset bytes buffer)) (sym n)
    ∙ ap (take (length front)) (sym (append_assoc (take offset buffer) bytes rest))
    ∙ take-length front rest

-- Bytes that are read move from the transport to what is consumed.
pub move :
    {T : Type 0} (content : T → List ℕ) (front got : List ℕ) (t t' : T)
    → got ++ content t' ≡ content t
    → Same content front t (front ++ got) t'
move content front got t t' e = append_assoc front got (content t') ∙ ap (λ bs. front ++ bs) e

-- An answer of no bytes leaves the transport's bytes.
pub none_read :
    {T : Type 0} (content : T → List ℕ) (bytes : List ℕ) (t t' : T)
    → (length bytes == 0) ≡ true
    → bytes ++ content t' ≡ content t
    → content t' ≡ content t
none_read content [] t t' e a = a
none_read content (b ∷ bytes) t t' e a = absurd (ground arith)

pub empty : (bytes : List ℕ) → (length bytes == 0) ≡ true → bytes ≡ []
empty [] e = refl
empty (b ∷ bytes) e = absurd (ground arith)

pub zero_taken : (offset : ℕ) (buffer : List ℕ) → (offset == 0) ≡ true → take offset buffer ≡ []
zero_taken zero buffer e = refl
zero_taken (suc offset) buffer e = absurd (ground arith)
