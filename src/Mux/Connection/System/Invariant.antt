-- ===== src/Mux/Connection/System/Invariant.antt =====
-- mux/mux/src/connection/active.rs: the invariant of an active connection holds in every state that it
-- reaches.
use tlsn_utils.Base.{
  ℕ, ◌≡◌, refl, subst, ◌∙◌, Bool-cases, inl, inr, leb, Bool, true, false, Option, none, some, arith,
}
use tlsn_utils.Mux.Config.{Config}
use tlsn_utils.Mux.Header.{StreamId}
use tlsn_utils.Mux.Stream.{Shared}
use tlsn_utils.Mux.Connection.IdMap.{lookup}
use tlsn_utils.Mux.Connection.Registry.{
  Registry, active_slots, new_stream, stream_at, adopt_at, try_claim_slot, claimed, adopt_or_claim,
  poll_activate,
}
use tlsn_utils.Mux.Connection.Registry.Invariant.{
  IsRegistry, new_stream-IsRegistry, poll_activate-IsRegistry, release-IsRegistry, with_handle,
}
use tlsn_utils.Mux.Connection.Active.{Active}
use tlsn_utils.Mux.Connection.Driver.{Round, again, wait, stop, panicked, poll_round}
use tlsn_utils.Mux.Connection.Driver.Handlers.{IsActive}
use tlsn_utils.Mux.Connection.Driver.Invariant.{IsRound, poll_round-IsRound}
use tlsn_utils.Mux.Connection.System.{
  new, GoesOn, Step, round, create, activate, release, task, Reach, here, next,
}

module _ (c : Config) where
  round-IsActive : (r : Round) (b : Active) → IsRound c r → GoesOn r b → IsActive c b
  round-IsActive (again a) b v e = subst (IsActive c) e v
  round-IsActive (wait a) b v e = subst (IsActive c) e v
  round-IsActive (stop f a) b v e = elim e [ ]
  round-IsActive panicked b v e = elim e [ ]

  -- What neither the creation nor the activation of a stream changes.
  abbrev HasKept : Registry → Registry → Type 0
  HasKept r r' = (r'.config ≡ r.config) × (r'.owed_close ≡ r.owed_close)

  new_stream-HasKept : (now : ℕ) (id : StreamId) (r : Registry) → HasKept r (new_stream now id r)
  unfolding new_stream
  new_stream-HasKept now id r = go (lookup id r.streams) (lookup id r.inactive)
    where
      go : (s i : Option ℕ) → HasKept r (stream_at now id r s i)
      go (some addr) i = (refl, refl)
      go none (some addr) = (refl, refl)
      go none none = (refl, refl)

  poll_activate-HasKept :
      (waker : ℕ) (sender_closed : Bool) (id : StreamId) (addr : ℕ) (r : Registry)
      → HasKept r ((poll_activate waker sender_closed id addr r).2)
  unfolding poll_activate
  poll_activate-HasKept waker sender_closed id addr r =
      elim (Bool-cases ((r.cells addr).activated)) [
        | inl e ↦ rw e (refl, refl)
        | inr e ↦ rw e (adopt (lookup id r.streams))
      ]
    where
      refused : (closed : Bool) → HasKept r ((claimed waker closed addr (false, r)).2)
      refused true = (refl, refl)
      refused false = (refl, refl)

      claim : HasKept r ((claimed waker sender_closed addr (try_claim_slot r id addr)).2)
      claim = elim (Bool-cases (leb r.config.max_num_streams (active_slots r))) [
        | inl full ↦ rw full (refused sender_closed)
        | inr free ↦ rw free (refl, refl)
      ]

      adopt :
          (found : Option ℕ)
          → HasKept r ((adopt_or_claim waker sender_closed id addr (adopt_at r id found)).2)
      adopt none = claim
      adopt (some addr') = (refl, refl)

  registry-IsActive :
      (a : Active) (r : Registry)
      → IsActive c a
      → HasKept a.registry r
      → IsRegistry r
      → IsActive c (record a { registry = r })
  registry-IsActive a r v k w = record {
    config = k.0 ∙ v.config;
    registry = w;
    owed = ground (arith, v.owed);
  }

  Step-IsActive : {a b : Active} → Step a b → IsActive c a → IsActive c b
  Step-IsActive (round i a b g) v = round-IsActive (poll_round i a) b (poll_round-IsRound c i a v) g
  Step-IsActive (create now id a) v =
      registry-IsActive a (new_stream now id a.registry) v (new_stream-HasKept now id a.registry)
        (new_stream-IsRegistry now id a.registry v.registry)
  Step-IsActive (activate waker sender_closed before after id addr a e) v =
      registry-IsActive a
        (with_handle before id after (poll_activate waker sender_closed id addr a.registry)) v
        (poll_activate-HasKept waker sender_closed id addr a.registry)
        (poll_activate-IsRegistry before after id addr a.registry v.registry e waker sender_closed)
  Step-IsActive (release before after id addr a e) v = record {
    config = v.config;
    registry = release-IsRegistry before after id addr a.registry v.registry e;
    owed = v.owed;
  }
  Step-IsActive (task addr cell a) v = record {
    config = v.config;
    registry = record { bounded = v.registry.bounded; links = v.registry.links };
    owed = v.owed;
  }

  Reach-IsActive : {a b : Active} → IsActive c a → Reach a b → IsActive c b
  Reach-IsActive v here = v
  Reach-IsActive v (next r s) = Step-IsActive s (Reach-IsActive v r)

new-IsActive : (c : Config) (now : ℕ) (cells : ℕ → Shared) → IsActive c (new c now cells)
unfolding new lookup
new-IsActive c now cells = record {
  config = refl;
  registry = record { bounded = omega arith; links = record { apart = λ id. refl; held = tt } };
  owed = omega arith;
}

pub reached-IsActive :
    (c : Config) (now : ℕ) (cells : ℕ → Shared) {a : Active}
    → Reach (new c now cells) a
    → IsActive c a
reached-IsActive c now cells r = Reach-IsActive c (new-IsActive c now cells) r
