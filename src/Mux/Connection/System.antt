-- ===== src/Mux/Connection/System.antt =====
-- The connection of mux/mux/src/connection/active.rs with its handles: rounds of the driver, and between
-- them new streams, activations and drops of handles, and whatever a stream's task does to its own cell.
pub mod Invariant
pub mod Safety
use tlsn_utils.Base.{
  ℕ, suc, ◌+◌, ◌≤◌, ◌≡◌, refl, subst, ◌∙◌, Bool-cases, inl, inr, leb, Bool, true, false, Option,
  none, some, List, [], ◌∷◌, ◌++◌, length, arith, All,
}
use tlsn_utils.Mux.Config.{Config}
use tlsn_utils.Mux.Header.{StreamId}
use tlsn_utils.Mux.Stream.{Shared}
use tlsn_utils.Mux.Rtt.{Rtt}
use tlsn_utils.Mux.Rtt as Rtt
use tlsn_utils.Mux.Connection.IdMap.{lookup, is_some}
use tlsn_utils.Mux.Connection.Registry.{
  Registry, write_cell, active_slots, new_stream, stream_at, adopt_at, try_claim_slot, claimed,
  adopt_or_claim, poll_activate,
}
use tlsn_utils.Mux.Connection.Registry.Links.{IsHeld, IsLinked}
use tlsn_utils.Mux.Connection.Registry.Invariant.{
  IsRegistry, new_stream-IsRegistry, poll_activate-IsRegistry, release-IsRegistry, with_handle,
}
use tlsn_utils.Mux.Connection.Active.{Active}
use tlsn_utils.Mux.Connection.Driver.{Inputs, Round, again, wait, stop, panicked, poll_round}
use tlsn_utils.Mux.Connection.Driver.Handlers.{IsActive}
use tlsn_utils.Mux.Connection.Driver.Invariant.{IsRound, poll_round-IsRound}

abbrev initial_registry : Config → Rtt → (ℕ → Shared) → Registry
initial_registry c rtt cells = record {
  streams = [];
  inactive = [];
  owed_close = [];
  slot_wakers = [];
  config = c;
  rtt = rtt;
  cells = cells;
  next_cell = 0;
  handles = [];
  woken = [];
}

-- `Active::new`; what the cells hold that no map refers to is arbitrary.
unfoldable pub new : Config → ℕ → (ℕ → Shared) → Active
unfolding Rtt.new
new c now cells = record {
  registry = initial_registry c (Rtt.new now) cells;
  data_bytes_in = 0;
  data_bytes_out = 0;
  pending_pong = none;
  pending_terminate = none;
  terminating = false;
  pending_write_frame = none;
  no_streams_waker = none;
  sent = [];
}

-- The round ended with the connection open, in the state given.
abbrev pub GoesOn : Round → Active → Type 0
GoesOn (again a) b = a ≡ b
GoesOn (wait a) b = a ≡ b
GoesOn (stop e a) b = ⊥
GoesOn panicked b = ⊥

pub data Step : Active → Active → Type 0 where
  round : (i : Inputs) (a b : Active) → GoesOn (poll_round i a) b → Step a b
  create :
      (now : ℕ) (id : StreamId) (a : Active)
      → Step a (record a { registry = new_stream now id a.registry })
  activate :
      (waker : ℕ) (sender_closed : Bool) (before after : List (StreamId × ℕ)) (id : StreamId)
      (addr : ℕ) (a : Active)
      → a.registry.handles ≡ before ++ ((id, addr) ∷ after)
      → Step a (record a {
        registry =
            with_handle before id after (poll_activate waker sender_closed id addr a.registry);
      })
  release :
      (before after : List (StreamId × ℕ)) (id : StreamId) (addr : ℕ) (a : Active)
      → a.registry.handles ≡ before ++ ((id, addr) ∷ after)
      → Step a (record a { registry = record a.registry { handles = before ++ after } })
  task :
      (addr : ℕ) (cell : Shared) (a : Active)
      → Step a (record a { registry = write_cell addr cell a.registry })

pub data Reach (a : Active) : Active → Type 0 where
  here : Reach a a
  next : {b c : Active} → Reach a b → Step b c → Reach a c
