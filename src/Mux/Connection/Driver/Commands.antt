-- ===== src/Mux/Connection/Driver/Commands.antt =====
-- mux/mux/src/connection/active.rs: commands are taken only where no close frame is owed, so that at
-- most one is owed at any time.
use tlsn_utils.Base.{
  ℕ, ◌≤◌, ◌≡◌, refl, true, false, ◌||◌, Option, none, some, [], ◌∷◌, length, arith, ◌⊎◌, inl, inr,
  Bool-cases,
}
use tlsn_utils.Mux.Config.{Config}
use tlsn_utils.Mux.Header.{StreamId}
use tlsn_utils.Mux.Frame.{Frame}
use tlsn_utils.Mux.Stream.{State}
use tlsn_utils.Mux.Connection.IdMap.{IdMap, lookup, remove, is_some, length-insert}
use tlsn_utils.Mux.Connection.Registry.{
  Registry, is_held, on_drop_stream, drop_at, owe, close_frame, close_and_wake, wake_slot_waiters,
}
use tlsn_utils.Mux.Connection.Registry.Invariant.{on_drop_stream-IsRegistry}
use tlsn_utils.Mux.Connection.Active.{Active}
use tlsn_utils.Mux.Connection.Driver.{
  CommandPoll, send_frame, close, dropped, no_streams, stage_owed, stage_first, by_command,
  take_command,
}
use tlsn_utils.Mux.Connection.Driver.Handlers.{IsActive}

module _ (c : Config) where
  -- A command is taken only where no close frame is owed.
  stage_owed-none :
      (a : Active)
      → stage_owed a ≡ none
      → (is_some a.pending_write_frame ≡ true) ⊎ (a.registry.owed_close ≡ [])
  unfolding stage_owed
  stage_owed-none a h = elim (Bool-cases (is_some a.pending_write_frame)) [
    | inl e ↦ inl e
    | inr e ↦ inr (empty a.registry.owed_close (rw e at h))
  ]
    where
      empty : (owed : IdMap Frame) → stage_first owed a ≡ none → owed ≡ []
      empty [] h = refl
      empty ((id, f) ∷ rest) h = cc

  owe_one :
      (id : StreamId) (frame : Option Frame) (r : Registry)
      → r.config ≡ c
      → r.owed_close ≡ []
      → ((owe id frame r).config ≡ c) × (length ((owe id frame r).owed_close) ≤ 1)
  unfolding wake_slot_waiters
  owe_one id none r e empty = (e, ground arith)
  owe_one id (some f) r e empty = (e, ground (arith, length-insert id f r.owed_close))

  drop_one :
      (id : StreamId) (r : Registry) (found : Option ℕ)
      → r.config ≡ c
      → r.owed_close ≡ []
      → ((drop_at id r found).config ≡ c) × (length ((drop_at id r found).owed_close) ≤ 1)
  unfolding close_and_wake
  drop_one id r none e empty = (e, ground arith)
  drop_one id r (some addr) e empty =
      owe_one id (close_frame id ((r.cells addr).state))
        (close_and_wake State.closed addr (record r { streams = remove id r.streams })) e empty

  on_drop_stream_one :
      (id : StreamId) (r : Registry)
      → r.config ≡ c
      → r.owed_close ≡ []
      → ((on_drop_stream id r).config ≡ c) × (length ((on_drop_stream id r).owed_close) ≤ 1)
  unfolding on_drop_stream
  on_drop_stream_one id r e empty =
      elim (Bool-cases (is_held r (lookup id r.streams) || is_held r (lookup id r.inactive))) [
        | inl held ↦ rw held (e, ground arith)
        | inr free ↦ rw free (drop_one id r (lookup id r.streams) e empty)
      ]

  on_drop_stream-IsActive :
      (id : StreamId) (a : Active)
      → IsActive c a
      → a.registry.owed_close ≡ []
      → IsActive c (record a { registry = on_drop_stream id a.registry })
  on_drop_stream-IsActive id a v empty = record {
    config = (on_drop_stream_one id a.registry v.config empty).0;
    registry = on_drop_stream-IsRegistry id a.registry v.registry;
    owed = (on_drop_stream_one id a.registry v.config empty).1;
  }

  by_command-IsActive :
      (waker : ℕ) (command : CommandPoll) (a : Active)
      → IsActive c a
      → a.registry.owed_close ≡ []
      → IsActive c (by_command waker command a).1
  by_command-IsActive waker (send_frame f) a v e = record {
    config = v.config;
    registry = v.registry;
    owed = v.owed;
  }
  by_command-IsActive waker (close id) a v e = record {
    config = v.config;
    registry = v.registry;
    owed = v.owed;
  }
  by_command-IsActive waker (dropped id) a v e = on_drop_stream-IsActive id a v e
  by_command-IsActive waker no_streams a v e = record {
    config = v.config;
    registry = v.registry;
    owed = v.owed;
  }
  by_command-IsActive waker CommandPoll.pending a v e = v

  pub take_command-IsActive :
      (waker : ℕ) (command : CommandPoll) (a : Active)
      → IsActive c a
      → stage_owed a ≡ none
      → IsActive c (take_command waker command a).1
  unfolding take_command
  take_command-IsActive waker command a v h = elim (Bool-cases (is_some a.pending_write_frame)) [
    | inl e ↦ rw e v
    | inr e ↦ rw e (by_command-IsActive waker command a v (empty e (stage_owed-none a h)))
  ]
    where
      empty :
          is_some a.pending_write_frame ≡ false
          → (is_some a.pending_write_frame ≡ true) ⊎ (a.registry.owed_close ≡ [])
          → a.registry.owed_close ≡ []
      empty e (inl k) = absurd (ground arith)
      empty e (inr k) = k
