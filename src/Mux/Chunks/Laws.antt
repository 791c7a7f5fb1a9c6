-- ===== src/Mux/Chunks/Laws.antt =====
-- mux/mux/src/chunks.rs against a plain queue of bytes.
use tlsn_utils.Base.{
  ℕ, suc, ◌+◌, ◌≤◌, ◌≡◌, refl, ap, sym, ◌∙◌, false, List, [], ◌∷◌, ◌++◌, ◌==◌, length, tail, arith,
  All, length-drop, length-append,
}
use mathlib.Core.List.{append-nil, append_assoc}
use tlsn_utils.Mux.Chunks.{Chunk, Chunks, chunk_rest, len, push}

-- The bytes that have not been read, in order.
abbrev pub unread_of : List Chunk → List ℕ
unread_of [] = []
unread_of (c ∷ rest) = chunk_rest c ++ unread_of rest

abbrev pub unread : Chunks → List ℕ
unread s = unread_of s.seq

abbrev pub size_of : List Chunk → ℕ
size_of [] = 0
size_of (c ∷ rest) = length c.bytes + size_of rest

-- Only the front chunk has been read from.
abbrev pub IsFresh : List Chunk → Type 0
IsFresh cs = All (λ c. ◌≡◌ {A = ℕ} c.position 0) cs

pub record IsValid (s : Chunks) : Type 0 where
  pub sum : s.total ≡ size_of s.seq
  pub within : All (λ c. c.position ≤ length c.bytes) s.seq
  pub behind : IsFresh (tail s.seq)

length-IsFresh : (cs : List Chunk) → IsFresh cs → length (unread_of cs) ≡ size_of cs
length-IsFresh [] h = refl
length-IsFresh (c ∷ cs) h = omega (
  arith,
  length-append (chunk_rest c) (unread_of cs),
  length-drop c.position c.bytes,
  length-IsFresh cs h.1,
)

-- `len` is the number of unread bytes.
pub len-unread : (s : Chunks) → IsValid s → len s ≡ length (unread s)
len-unread s v = go s.seq s.total v.sum v.within v.behind
  where
    go :
        (cs : List Chunk) (n : ℕ)
        → n ≡ size_of cs
        → All (λ c. c.position ≤ length c.bytes) cs
        → IsFresh (tail cs)
        → len (record { seq = cs; total = n }) ≡ length (unread_of cs)
    go [] n e w b = unfold len in omega arith
    go (c ∷ cs) n e w b =
        unfold len in
        omega (
          arith,
          length-append (chunk_rest c) (unread_of cs),
          length-drop c.position c.bytes,
          length-IsFresh cs b,
        )

IsFresh-append :
    (cs : List Chunk) (c : Chunk) → IsFresh cs → c.position ≡ 0 → IsFresh (cs ++ (c ∷ []))
IsFresh-append [] c h e = (e, tt)
IsFresh-append (d ∷ cs) c h e = (h.0, IsFresh-append cs c h.1 e)

size_of-append :
    (cs : List Chunk) (c : Chunk) → size_of (cs ++ (c ∷ [])) ≡ size_of cs + length c.bytes
size_of-append [] c = omega arith
size_of-append (d ∷ cs) c = omega (arith, size_of-append cs c)

unread_of-append :
    (cs : List Chunk) (x : List ℕ)
    → unread_of (cs ++ (record { bytes = x; position = 0 } ∷ [])) ≡ unread_of cs ++ x
unread_of-append [] x = append-nil x
unread_of-append (d ∷ cs) x =
    ap (λ ys. chunk_rest d ++ ys) (unread_of-append cs x)
    ∙ sym (append_assoc (chunk_rest d) (unread_of cs) x)

within-append :
    (cs : List Chunk) (x : List ℕ)
    → All (λ c. c.position ≤ length c.bytes) cs
    → All (λ c. c.position ≤ length c.bytes) (cs ++ (record { bytes = x; position = 0 } ∷ []))
within-append [] x h = (omega arith, tt)
within-append (d ∷ cs) x h = (h.0, within-append cs x h.1)

behind-append :
    (cs : List Chunk) (x : List ℕ)
    → IsFresh (tail cs)
    → IsFresh (tail (cs ++ (record { bytes = x; position = 0 } ∷ [])))
behind-append [] x h = tt
behind-append (d ∷ cs) x h = IsFresh-append cs _ h refl

suc_ne_zero : (n : ℕ) → (suc n == 0) ≡ false
suc_ne_zero n = ground arith

push_cons :
    (s : Chunks) (b : ℕ) (bs : List ℕ)
    → push s (b ∷ bs) ≡ record {
      seq = s.seq ++ (record { bytes = b ∷ bs; position = 0 } ∷ []);
      total = s.total + length (b ∷ bs);
    }
unfolding push
push_cons s b bs = rw (suc_ne_zero (length bs))

-- `push` appends the bytes to what is unread, and keeps the buffer valid.
pub push_lem :
    (s : Chunks) (x : List ℕ) → IsValid s → IsValid (push s x) × (unread (push s x) ≡ unread s ++ x)
push_lem s [] v =
    unfold push in
    (
      record { sum = omega (arith, v.sum); within = v.within; behind = v.behind },
      sym (append-nil (unread s)),
    )
push_lem s (b ∷ bs) v = rw (push_cons s b bs) (
  record {
    sum = omega (arith, v.sum, size_of-append s.seq (record { bytes = b ∷ bs; position = 0 }));
    within = within-append s.seq (b ∷ bs) v.within;
    behind = behind-append s.seq (b ∷ bs) v.behind;
  },
  unread_of-append s.seq (b ∷ bs),
)
