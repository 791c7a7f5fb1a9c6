-- ===== src/Rangeset/Iter/Loops.antt =====
-- The rule for an iterator whose `next` is a loop: if every round keeps the list that the state stands
-- for and an invariant, and takes a measure down, collecting the iterator gives that list.
use tlsn_utils.Base.{
  ℕ, zero, suc, ◌≤◌, ◌<◌, ◌≡◌, sym, ◌∙◌, ap, Option, none, some, List, [], ◌∷◌, arith, Run, done,
  out_of_fuel, collect, Returns, ◌>>=◌,
}
use tlsn_utils.Rangeset.Range.{Range}
use tlsn_utils.Rangeset.Iter.{Control, give, again, after, run_loop, run_loop-after}

module _ {S : Type 0} (items : S → List Range) (measure : S → ℕ) (Valid : S → Type 0) where
  -- What a round does to a state that stands for `list` and measures `size`.
  abbrev pub Progress : List Range → ℕ → Control S → Type 0
  Progress list size (give none s') = list ≡ []
  Progress list size (give (some x) s') = (list ≡ x ∷ items s') × (measure s' < size) × Valid s'
  Progress list size (again s') = (list ≡ items s') × (measure s' < size) × Valid s'

  abbrev pub Advance : List Range → ℕ → Option Range → S → Type 0
  Advance list size none s' = list ≡ []
  Advance list size (some x) s' = (list ≡ x ∷ items s') × (measure s' < size) × Valid s'

  Advance-mono :
      (list list' : List Range) (size size' : ℕ) (o : Option Range) (s' : S)
      → list ≡ list'
      → size' ≤ size
      → Advance list' size' o s'
      → Advance list size o s'
  Advance-mono list list' size size' none s' e h a = e ∙ a
  Advance-mono list list' size size' (some x) s' e h a = (e ∙ a.0, omega arith, a.2)

  module _ (round : S → Control S)
      (ok : (s : S) → Valid s → Progress (items s) (measure s) (round s)) where
    run_loop-Advance :
        (fuel : ℕ) (s : S)
        → measure s < fuel
        → Valid s
        → Returns (run_loop fuel round s) (λ r. Advance (items s) (measure s) r.0 r.1)
    run_loop-Advance zero s h v = absurd (omega arith)
    run_loop-Advance (suc fuel) s h v =
        rw (run_loop-after fuel round s) (go (round s) (ok s v) (run_loop-Advance fuel))
      where
        go :
            (c : Control S)
            → Progress (items s) (measure s) c
            → ((s' : S)
                → measure s' < fuel
                → Valid s'
                → Returns (run_loop fuel round s') (λ r. Advance (items s') (measure s') r.0 r.1))
            → Returns (after (run_loop fuel round) c) (λ r. Advance (items s) (measure s) r.0 r.1)
        go (give none s') p ih = p
        go (give (some x) s') p ih = p
        go (again s') p ih = weaken (run_loop fuel round s') (ih s' (omega arith) p.2)
          where
            weaken :
                (r : Run (Option Range × S))
                → Returns r (λ r. Advance (items s') (measure s') r.0 r.1)
                → Returns r (λ r. Advance (items s) (measure s) r.0 r.1)
            weaken (done (o, t)) a =
                Advance-mono (items s) (items s') (measure s) (measure s') o t p.0 (omega arith) a
            weaken out_of_fuel a = a

    pub collect-run_loop :
        (n fuel : ℕ) (s : S)
        → measure s < n
        → measure s < fuel
        → Valid s
        → collect n (run_loop fuel round) s ≡ done (items s)
    unfolding collect
    collect-run_loop zero fuel s h k v = absurd (omega arith)
    collect-run_loop (suc n) fuel s h k v =
        go (run_loop fuel round s) (run_loop-Advance fuel s k v) (collect-run_loop n fuel)
      where
        go :
            (r : Run (Option Range × S))
            → Returns r (λ r. Advance (items s) (measure s) r.0 r.1)
            → ((s' : S)
                → measure s' < n
                → measure s' < fuel
                → Valid s'
                → collect n (run_loop fuel round) s' ≡ done (items s'))
            → (r >>= λ r. elim (r.0) [
              | none ↦ done []
              | some x ↦ collect n (run_loop fuel round) r.1 >>= λ xs. done (x ∷ xs)
            ])
              ≡ done (items s)
        go (done (none, t)) a ih = ap done (sym a)
        go (done (some x, t)) a ih = rw (ih t (omega arith) (omega arith) a.2) (ap done (sym a.0))
        go out_of_fuel a ih = absurd a
