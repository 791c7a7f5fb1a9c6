-- ===== src/Base/Loop.antt =====
-- The outcome of a loop that is run on fuel.
use Prim.Native.Nat.{ℕ, zero, suc}
use mathlib.Core.Option.{Option, none, some}
use mathlib.Core.List.{List, [], ◌∷◌}

pub data Run {ℓ} (A : Type ℓ) : Type ℓ where
  done : A → Run A
  out_of_fuel : Run A

infixl 5 ◌>>=◌
abbrev pub ◌>>=◌ {ℓ κ} : {A : Type ℓ} {B : Type κ} (first : Run A) (rest : A → Run B) → Run B
done a >>= f = f a
out_of_fuel >>= f = out_of_fuel

-- `for x in iter` or `iter.collect()`, at most `fuel` calls of `next`.
unfoldable pub collect : {A S : Type 0} → ℕ → (S → Run (Option A × S)) → S → Run (List A)
collect zero next s = out_of_fuel
collect (suc fuel) next s = next s >>= λ r. elim (r.0) [
  | none ↦ done []
  | some x ↦ collect fuel next r.1 >>= λ xs. done (x ∷ xs)
]

-- The run ends, and its result satisfies `P`.
abbrev pub Returns {ℓ} : {A : Type ℓ} (r : Run A) (P : A → Type 0) → Type 0
Returns out_of_fuel P = ⊥
Returns (done result) P = P result

pub Returns-map :
    {A : Type 0} (P Q : A → Type 0) (r : Run A) → ((x : A) → P x → Q x) → Returns r P → Returns r Q
Returns-map P Q (done x) f p = f x p
Returns-map P Q out_of_fuel f p = p
