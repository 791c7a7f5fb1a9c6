-- ===== src/Mux/Connection/System/Safety.antt =====
-- mux/mux/src/connection/active.rs: the limits of a connection, and the cells of its streams, in every
-- state that it reaches.
use tlsn_utils.Base.{◌&&◌, ℕ, ◌+◌, ◌≤◌, ◌≡◌, false, length, arith, All}
use tlsn_utils.Mux.Config.{Config}
use tlsn_utils.Mux.Header.{StreamId}
use tlsn_utils.Mux.Stream.{Shared}
use tlsn_utils.Mux.Connection.IdMap.{lookup, is_some}
use tlsn_utils.Mux.Connection.Registry.{active_slots}
use tlsn_utils.Mux.Connection.Registry.Links.{IsHeld}
use tlsn_utils.Mux.Connection.Active.{Active}
use tlsn_utils.Mux.Connection.Driver.Handlers.{IsActive}
use tlsn_utils.Mux.Connection.System.{new, Reach}
use tlsn_utils.Mux.Connection.System.Invariant.{reached-IsActive}

-- In every state that a connection reaches from its start, by rounds of the driver, by streams that are
-- created, activated or dropped and by anything a stream's task does to a cell, the active streams are at
-- most `max_num_streams`, at most one close frame is owed between two rounds, and the slots taken exceed
-- `max_num_streams` by at most one.
pub Reach-bounded :
    (c : Config) (now : ℕ) (cells : ℕ → Shared) (a : Active)
    → Reach (new c now cells) a
    → (length a.registry.streams ≤ c.max_num_streams)
      × (length a.registry.owed_close ≤ 1)
      × (active_slots a.registry ≤ c.max_num_streams + 1)
Reach-bounded c now cells a r = go (reached-IsActive c now cells r)
  where
    go :
        IsActive c a
        → (length a.registry.streams ≤ c.max_num_streams)
          × (length a.registry.owed_close ≤ 1)
          × (active_slots a.registry ≤ c.max_num_streams + 1)
    go v = (ground arith, v.owed, ground arith)

-- In every state that a connection reaches from its start, no identifier is both active and inactive, and
-- each handle shares the cell that the maps have under its identifier.
pub Reach-shared :
    (c : Config) (now : ℕ) (cells : ℕ → Shared) (a : Active)
    → Reach (new c now cells) a
    → ((id : StreamId)
        → (is_some (lookup id a.registry.streams) && is_some (lookup id a.registry.inactive))
          ≡ false)
      × All (IsHeld a.registry.streams a.registry.inactive) a.registry.handles
Reach-shared c now cells a r = go (reached-IsActive c now cells r)
  where
    go :
        IsActive c a
        → ((id : StreamId)
            → (is_some (lookup id a.registry.streams) && is_some (lookup id a.registry.inactive))
              ≡ false)
          × All (IsHeld a.registry.streams a.registry.inactive) a.registry.handles
    go v = (v.registry.links.apart, v.registry.links.held)
