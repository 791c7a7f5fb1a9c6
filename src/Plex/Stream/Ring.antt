-- ===== src/Plex/Stream/Ring.antt =====
-- futures-plex/src/lib.rs: the bytes in the ring buffer, as a list.
use tlsn_utils.Base.{
  ℕ, zero, suc, ◌+◌, ◌-◌, ◌%◌, ◌≤◌, ◌<◌, ◌≡◌, refl, ◌∙◌, ap, ap₂, true, false, List, [], ◌∷◌, ◌++◌,
  ltb, ◌==◌, if◌then◌else◌, length, take, drop, arith, ◌⊎◌, Bool-cases, inl, inr,
}
use native.Mathlib.Nat.{mod-eq_of_lt, mod-eq-sub-mod}
use tlsn_utils.Plex.Stream.{SimplexStream, slice, copy}

-- The index of the place `p`, which goes at most once round.
abbrev pub wrap : ℕ → ℕ → ℕ
wrap capacity p = if ltb p capacity then p else p - capacity

-- `n` bytes from the place `p`.
unfoldable pub ring : (ℕ → ℕ) → ℕ → ℕ → ℕ → List ℕ
ring buffer capacity p zero = []
ring buffer capacity p (suc n) = buffer (wrap capacity p) ∷ ring buffer capacity (suc p) n

abbrev pub contents : SimplexStream → List ℕ
contents s = ring s.buffer s.capacity s.ptr s.len

pub wrap_lem :
    (capacity p : ℕ) → 0 < capacity → p < capacity + capacity → p % capacity ≡ wrap capacity p
wrap_lem capacity p h k = elim (Bool-cases (ltb p capacity)) [
  | inl e ↦ rw e (mod-eq_of_lt (ground arith))
  | inr e ↦ rw e (mod-eq-sub-mod (ground arith) ∙ mod-eq_of_lt (ground arith))
]

module _ (buffer : ℕ → ℕ) (capacity : ℕ) where
  pub length-ring : (p n : ℕ) → length (ring buffer capacity p n) ≡ n
  unfolding ring
  length-ring p zero = refl
  length-ring p (suc n) = omega (arith, length-ring (suc p) n)

  pub slice-ring : (p n : ℕ) → p + n ≤ capacity → slice buffer p n ≡ ring buffer capacity p n
  unfolding slice ring
  slice-ring p zero h = refl
  slice-ring p (suc n) h =
      let e : ltb p capacity ≡ true = ground arith in
      rw e (ap (λ xs. buffer p ∷ xs) (slice-ring (suc p) n (omega arith)))

  pub take-ring : (p k n : ℕ) → k ≤ n → take k (ring buffer capacity p n) ≡ ring buffer capacity p k
  unfolding ring
  take-ring p zero n h = refl
  take-ring p (suc k) zero h = elim h [ ]
  take-ring p (suc k) (suc n) h =
      ap (λ xs. buffer (wrap capacity p) ∷ xs) (take-ring (suc p) k n (omega arith))

  -- The place may be written in two ways.
  pub ring_at : (p q n : ℕ) → p ≡ q → ring buffer capacity p n ≡ ring buffer capacity q n
  ring_at p q n e = ap (λ x. ring buffer capacity x n) e

  pub drop-ring :
      (p k n : ℕ) → k ≤ n → drop k (ring buffer capacity p n) ≡ ring buffer capacity (p + k) (n - k)
  unfolding ring
  drop-ring p zero n h = ap₂ (ring buffer capacity) (omega arith) (omega arith)
  drop-ring p (suc k) zero h = elim h [ ]
  drop-ring p (suc k) (suc n) h =
      drop-ring (suc p) k n (omega arith) ∙ ap₂ (ring buffer capacity) (omega arith) (omega arith)

  pub ring-add :
      (p n m : ℕ)
      → ring buffer capacity p (n + m) ≡ ring buffer capacity p n ++ ring buffer capacity (p + n) m
  unfolding ring
  ring-add p zero m = ap₂ (ring buffer capacity) (omega arith) (omega arith)
  ring-add p (suc n) m =
      let e : (suc n) + m ≡ suc (n + m) = omega arith in
      rw e (
        ap (λ xs. buffer (wrap capacity p) ∷ xs)
          (ring-add (suc p) n m
            ∙ ap (λ xs. ring buffer capacity (suc p) n ++ xs)
                (ring_at (suc p + n) (p + suc n) m (omega arith))))

  pub ring-wrap :
      (p n : ℕ)
      → capacity ≤ p
      → p + n ≤ capacity + capacity
      → ring buffer capacity p n ≡ ring buffer capacity (p - capacity) n
  unfolding ring
  ring-wrap p zero h k = refl
  ring-wrap p (suc n) h k =
      let e : wrap capacity p ≡ wrap capacity (p - capacity) = ground arith in
      ap₂ (λ i xs. buffer i ∷ xs) e
        (ring-wrap (suc p) n (omega arith) (omega arith)
          ∙ ring_at (suc p - capacity) (suc (p - capacity)) n (omega arith))

  pub ring-same :
      (other : ℕ → ℕ) (p n : ℕ)
      → ((i : ℕ) → p ≤ i → i < p + n → other (wrap capacity i) ≡ buffer (wrap capacity i))
      → ring other capacity p n ≡ ring buffer capacity p n
  unfolding ring
  ring-same other p zero h = refl
  ring-same other p (suc n) h =
      ap₂ (λ b xs. b ∷ xs) (h p (omega arith) (omega arith))
        (ring-same other (suc p) n (λ i l m. h i (omega arith) (omega arith)))

-- The indices that a copy leaves, and the bytes that it writes.
pub copy-outside :
    (buffer : ℕ → ℕ) (start : ℕ) (bs : List ℕ) (i : ℕ)
    → (i < start) ⊎ (start + length bs ≤ i)
    → copy buffer start bs i ≡ buffer i
unfolding copy
copy-outside buffer start [] i h = refl
copy-outside buffer start (b ∷ bs) i h =
    copy-outside (λ j. if j == start then b else buffer j) (suc start) bs i (later h)
    ∙ rw (apart h) refl
  where
    later :
        (i < start) ⊎ (start + suc (length bs) ≤ i) → (i < suc start) ⊎ (suc start + length bs ≤ i)
    later (inl k) = inl (omega arith)
    later (inr k) = inr (omega arith)

    apart : (i < start) ⊎ (start + suc (length bs) ≤ i) → (i == start) ≡ false
    apart (inl k) = ground arith
    apart (inr k) = ground arith

pub copy-slice :
    (buffer : ℕ → ℕ) (start : ℕ) (bs : List ℕ) → slice (copy buffer start bs) start (length bs) ≡ bs
unfolding copy slice
copy-slice buffer start [] = refl
copy-slice buffer start (b ∷ bs) =
    ap₂ (λ x xs. x ∷ xs)
      (copy-outside (λ j. if j == start then b else buffer j) (suc start) bs start
          (inl (omega arith))
        ∙ rw (here start) refl)
      (copy-slice (λ j. if j == start then b else buffer j) (suc start) bs)
  where
    here : (i : ℕ) → (i == i) ≡ true
    here i = ground arith
