-- ===== src/Mux/Connection/Registry/Links.antt =====
-- mux/mux/src/connection/active.rs: which map holds the cell of a stream, and that the handles point
-- to the same cell.
use tlsn_utils.Base.{
  ℕ, ◌+◌, ◌≤◌, ◌≡◌, true, false, ◌&&◌, none, some, List, [], ◌∷◌, All, arith, ◌⊎◌, inl, inr,
  Bool-cases,
}
use tlsn_utils.Mux.Header.{StreamId}
use tlsn_utils.Mux.Connection.IdMap.{
  IdMap, lookup, remove, insert, same_id, same_id→eq, same_id_refl, is_some, lookup-remove,
  lookup-insert,
}
use tlsn_utils.Mux.Connection.Registry.{references}

-- One of the maps has the identifier of the handle at its address.
abbrev pub IsHeld : IdMap ℕ → IdMap ℕ → StreamId × ℕ → Type 0
IsHeld streams inactive (id, addr) =
    (lookup id streams ≡ some addr) ⊎ (lookup id inactive ≡ some addr)

-- No identifier is in both maps, and each handle shares the cell of its identifier.
pub record IsLinked (streams inactive : IdMap ℕ) (handles : List (StreamId × ℕ)) : Type 0 where
  pub apart :
      (id : StreamId) → (is_some (lookup id streams) && is_some (lookup id inactive)) ≡ false
  pub held : All (IsHeld streams inactive) handles

pub All-map :
    {A : Type 0} (P Q : A → Type 0) (xs : List A) → ((x : A) → P x → Q x) → All P xs → All Q xs
All-map P Q [] f h = tt
All-map P Q (x ∷ xs) f h = (f x h.0, All-map P Q xs f h.1)

module _ (s i : IdMap ℕ) (hs : List (StreamId × ℕ)) (v : IsLinked s i hs) (id : StreamId) where
  -- The local stream `id` becomes active in its own cell.
  pub IsLinked-move :
      (addr : ℕ)
      → lookup id s ≡ none
      → lookup id i ≡ some addr
      → IsLinked (insert id addr s) (remove id i) hs
  IsLinked-move addr e f = record {
    apart = λ j. ground (arith, v.apart j, lookup-insert id j addr s, lookup-remove id j i);
    held =
        All-map (IsHeld s i) (IsHeld (insert id addr s) (remove id i)) hs
          (λ h p. keep (h.0) (h.1) p) v.held;
  }
    where
      keep :
          (j : StreamId) (b : ℕ)
          → IsHeld s i (j, b)
          → IsHeld (insert id addr s) (remove id i) (j, b)
      keep j b p = elim (Bool-cases (same_id id j)) [
        | inl x ↦ inl (ground (arith, same_id→eq id j, lookup-insert id j addr s))
        | inr x ↦ rw (lookup-insert id j addr s, lookup-remove id j i, x) p
      ]

  -- The peer opens a stream that is not there, in a new cell.
  pub IsLinked-open :
      (addr : ℕ) → lookup id s ≡ none → lookup id i ≡ none → IsLinked (insert id addr s) i hs
  IsLinked-open addr e f = record {
    apart = λ j. ground (arith, v.apart j, lookup-insert id j addr s, same_id→eq id j);
    held = All-map (IsHeld s i) (IsHeld (insert id addr s) i) hs (λ h p. keep (h.0) (h.1) p) v.held;
  }
    where
      keep : (j : StreamId) (b : ℕ) → IsHeld s i (j, b) → IsHeld (insert id addr s) i (j, b)
      keep j b p = elim (Bool-cases (same_id id j)) [
        | inl x ↦ absurd (ground (arith, same_id→eq id j))
        | inr x ↦ rw (lookup-insert id j addr s, x) p
      ]

  -- A stream that is not there is created, inactive in a new cell, with its handle.
  pub IsLinked-create :
      (addr : ℕ)
      → lookup id s ≡ none
      → lookup id i ≡ none
      → IsLinked s (insert id addr i) ((id, addr) ∷ hs)
  IsLinked-create addr e f = record {
    apart = λ j. ground (arith, v.apart j, lookup-insert id j addr i, same_id→eq id j);
    held = (
      inr (ground (arith, lookup-insert id id addr i, same_id_refl id)),
      All-map (IsHeld s i) (IsHeld s (insert id addr i)) hs (λ h p. keep (h.0) (h.1) p) v.held,
    );
  }
    where
      keep : (j : StreamId) (b : ℕ) → IsHeld s i (j, b) → IsHeld s (insert id addr i) (j, b)
      keep j b p = elim (Bool-cases (same_id id j)) [
        | inl x ↦ absurd (ground (arith, same_id→eq id j))
        | inr x ↦ rw (lookup-insert id j addr i, x) p
      ]

  -- A handle joins a stream that is there.
  pub IsLinked-join : (addr : ℕ) → IsHeld s i (id, addr) → IsLinked s i ((id, addr) ∷ hs)
  IsLinked-join addr h = record { apart = v.apart; held = (h, v.held) }

  -- A stream that is active is not inactive, so nothing is removed.
  pub IsLinked-adopt : (addr : ℕ) → lookup id s ≡ some addr → IsLinked s (remove id i) hs
  IsLinked-adopt addr e = record {
    apart = λ j. ground (arith, v.apart j, lookup-remove id j i);
    held = All-map (IsHeld s i) (IsHeld s (remove id i)) hs (λ h p. keep (h.0) (h.1) p) v.held;
  }
    where
      keep : (j : StreamId) (b : ℕ) → IsHeld s i (j, b) → IsHeld s (remove id i) (j, b)
      keep j b p = elim (Bool-cases (same_id id j)) [
        | inl x ↦ inl (ground (arith, same_id→eq id j, v.apart id))
        | inr x ↦ rw (lookup-remove id j i, x) p
      ]

references-lookup :
    (id : StreamId) (addr : ℕ) (m : IdMap ℕ) → lookup id m ≡ some addr → 1 ≤ references addr m
unfolding lookup
references-lookup id addr [] e = cc
references-lookup id addr ((j, b) ∷ m) e = ground (arith, references-lookup id addr m)

references-All : (hs : List (StreamId × ℕ)) → All (λ (h : StreamId × ℕ). 1 ≤ references h.1 hs) hs
references-All [] = tt
references-All ((j, b) ∷ hs) = (
  ground arith,
  All-map (λ (h : StreamId × ℕ). 1 ≤ references h.1 hs)
      (λ (h : StreamId × ℕ). 1 ≤ references h.1 ((j, b) ∷ hs)) hs (λ h p. ground arith)
      (references-All hs),
)

pub All-both :
    {A : Type 0} (P Q : A → Type 0) (xs : List A) → All P xs → All Q xs → All (λ x. P x × Q x) xs
All-both P Q [] p q = tt
All-both P Q (x ∷ xs) p q = ((p.0, q.0), All-both P Q xs p.1 q.1)

module _ (s i : IdMap ℕ) (hs : List (StreamId × ℕ)) (v : IsLinked s i hs) (id : StreamId) where
  abbrev IsReferred : StreamId × ℕ → Type 0
  IsReferred h = IsHeld s i h × (1 ≤ references h.1 hs)

  referred : All IsReferred hs
  referred =
      All-both (IsHeld s i) (λ (h : StreamId × ℕ). 1 ≤ references h.1 hs) hs v.held
        (references-All hs)

  clash_active :
      (j : StreamId) (b addr : ℕ)
      → same_id id j ≡ true
      → lookup id s ≡ some addr
      → references addr s + (references addr i + references addr hs) ≤ 1
      → IsReferred (j, b)
      → ⊥
  clash_active j b addr x e few (inl q, r) =
      ground (arith, same_id→eq id j, references-lookup id addr s)
  clash_active j b addr x e few (inr q, r) = ground (arith, same_id→eq id j, v.apart id)

  clash_inactive :
      (j : StreamId) (b : ℕ)
      → same_id id j ≡ true
      → lookup id s ≡ none
      → ((addr : ℕ)
          → lookup id i ≡ some addr
          → references addr s + (references addr i + references addr hs) ≤ 1)
      → IsReferred (j, b)
      → ⊥
  clash_inactive j b x e few (inl q, r) = ground (arith, same_id→eq id j)
  clash_inactive j b x e few (inr q, r) =
      ground (arith, same_id→eq id j, references-lookup id b i, few b)

  -- A stream that only its map refers to has no handle, and can be removed.
  pub IsLinked-remove :
      (addr : ℕ)
      → lookup id s ≡ some addr
      → references addr s + (references addr i + references addr hs) ≤ 1
      → IsLinked (remove id s) i hs
  IsLinked-remove addr e few = record {
    apart = λ j. ground (arith, v.apart j, lookup-remove id j s);
    held = All-map IsReferred (IsHeld (remove id s) i) hs (λ h p. keep (h.0) (h.1) p) referred;
  }
    where
      keep : (j : StreamId) (b : ℕ) → IsReferred (j, b) → IsHeld (remove id s) i (j, b)
      keep j b p = elim (Bool-cases (same_id id j)) [
        | inl x ↦ absurd (clash_active j b addr x e few p)
        | inr x ↦ rw (lookup-remove id j s, x) (p.0)
      ]

  pub IsLinked-forget :
      lookup id s ≡ none
      → ((addr : ℕ)
          → lookup id i ≡ some addr
          → references addr s + (references addr i + references addr hs) ≤ 1)
      → IsLinked s (remove id i) hs
  IsLinked-forget e few = record {
    apart = λ j. ground (arith, v.apart j, lookup-remove id j i);
    held = All-map IsReferred (IsHeld s (remove id i)) hs (λ h p. keep (h.0) (h.1) p) referred;
  }
    where
      keep : (j : StreamId) (b : ℕ) → IsReferred (j, b) → IsHeld s (remove id i) (j, b)
      keep j b p = elim (Bool-cases (same_id id j)) [
        | inl x ↦ absurd (clash_inactive j b x e few p)
        | inr x ↦ rw (lookup-remove id j i, x) (p.0)
      ]
