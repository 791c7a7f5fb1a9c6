-- ===== src/Mux/Connection/IdMap.antt =====
-- `IntMap<StreamId, V>`, the maps of mux/mux/src/connection/active.rs, as association lists. The hash map
-- is a library's; of its order only "some first key" is used.
use tlsn_utils.Base.{
  suc, ◌≤◌, ◌≡◌, Bool, true, false, ◌&&◌, Option, none, some, List, [], ◌∷◌, ◌==◌, if◌then◌else◌,
  length, arith,
}
use tlsn_utils.Mux.Header.{StreamId}

-- `StreamId`, a record of bytes, is compared byte by byte.
unfoldable pub same_id : StreamId → StreamId → Bool
same_id a b =
    a.b0 == b.b0
    && a.b1 == b.b1
    && a.b2 == b.b2
    && a.b3 == b.b3
    && a.b4 == b.b4
    && a.b5 == b.b5
    && a.b6 == b.b6
    && a.b7 == b.b7

pub same_id→eq : (a b : StreamId) → same_id a b ≡ true → a ≡ b
unfolding same_id
same_id→eq a b h = ground arith

pub same_id_refl : (a : StreamId) → same_id a a ≡ true
unfolding same_id
same_id_refl a = ground arith

abbrev pub IdMap {ℓ} : Type ℓ → Type ℓ
IdMap V = List (StreamId × V)

module _ {ℓ} {V : Type ℓ} where
  unfoldable pub lookup : StreamId → IdMap V → Option V
  lookup k [] = none
  lookup k ((j, v) ∷ m) = if same_id j k then some v else lookup k m

  unfoldable pub remove : StreamId → IdMap V → IdMap V
  remove k [] = []
  remove k ((j, v) ∷ m) = if same_id j k then remove k m else (j, v) ∷ remove k m

  unfoldable pub insert : StreamId → V → IdMap V → IdMap V
  unfolding remove
  insert k v m = (k, v) ∷ remove k m

  abbrev pub is_some : Option V → Bool
  is_some none = false
  is_some (some v) = true

  pub lookup-remove :
      (k j : StreamId) (m : IdMap V)
      → lookup j (remove k m) ≡ (if same_id k j then none else lookup j m)
  unfolding lookup remove
  lookup-remove k j [] = ground arith
  lookup-remove k j ((i, v) ∷ m) =
      ground
        (arith, lookup-remove k j m, same_id→eq i k, same_id→eq i j, same_id→eq k j, same_id_refl j)

  pub lookup-insert :
      (k j : StreamId) (v : V) (m : IdMap V)
      → lookup j (insert k v m) ≡ (if same_id k j then some v else lookup j m)
  unfolding lookup insert
  lookup-insert k j v m = ground (arith, lookup-remove k j m)

  pub length-remove : (k : StreamId) (m : IdMap V) → length (remove k m) ≤ length m
  unfolding remove
  length-remove k [] = omega arith
  length-remove k ((j, v) ∷ m) = ground (arith, length-remove k m)

  pub length-insert : (k : StreamId) (v : V) (m : IdMap V) → length (insert k v m) ≤ suc (length m)
  unfolding insert
  length-insert k v m = omega (arith, length-remove k m)
