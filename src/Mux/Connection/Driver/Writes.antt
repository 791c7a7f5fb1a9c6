-- ===== src/Mux/Connection/Driver/Writes.antt =====
-- mux/mux/src/connection/active.rs: the parts of a round that write keep the invariant.
use tlsn_utils.Base.{
  ℕ, ◌≡◌, refl, Bool, true, false, Option, none, some, [], ◌∷◌, arith, inl, inr, Bool-cases,
}
use tlsn_utils.Mux.Config.{Config}
use tlsn_utils.Mux.Header.{Tag, data_, window_update_, ping_, go_away_}
use tlsn_utils.Mux.Frame.{Frame}
use tlsn_utils.Mux.Rtt.{Rtt, next_ping}
use tlsn_utils.Mux.Connection.IdMap.{IdMap, is_some, length-remove}
use tlsn_utils.Mux.Connection.Registry.{wake_slot_waiters}
use tlsn_utils.Mux.Connection.Active.{Active}
use tlsn_utils.Mux.Connection.Driver.{
  Inputs, adopt_receivers, start_send, send_ping, send_terminate, send_pong, send_pending_write,
  record_out, write_frame, stage_owed, stage_first,
}
use tlsn_utils.Mux.Connection.Driver.Handlers.{IsActive}

module _ (c : Config) where
  -- What a part of the round leaves, where it did something.
  abbrev pub IsDone : Option Active → Type 0
  IsDone none = Unit
  IsDone (some a) = IsActive c a

  with_rtt-IsActive :
      (rtt : Rtt) (a : Active)
      → IsActive c a
      → IsActive c (record a { registry = record a.registry { rtt = rtt } })
  with_rtt-IsActive rtt a v = record {
    config = v.config;
    registry = record { bounded = v.registry.bounded; links = v.registry.links };
    owed = v.owed;
  }

  pub adopt_receivers-IsActive :
      (new : Bool) (a : Active) → IsActive c a → IsActive c (adopt_receivers new a)
  adopt_receivers-IsActive false a v = v
  adopt_receivers-IsActive true a v = record {
    config = v.config;
    registry = record { bounded = v.registry.bounded; links = v.registry.links };
    owed = v.owed;
  }

  sent-IsActive : (f : Frame) (a : Active) → IsActive c a → IsActive c (start_send f a)
  sent-IsActive f a v = record { config = v.config; registry = v.registry; owed = v.owed }

  write-IsDone :
      (pending_write : Option Frame) (a : Active)
      → IsActive c a
      → IsDone (send_pending_write pending_write a)
  write-IsDone none a v = tt
  write-IsDone (some f) a v = go f.header.tag
    where
      go :
          (tag : Tag)
          → IsActive c (start_send f (record_out f tag (record a { pending_write_frame = none })))
      go data_ = record { config = v.config; registry = v.registry; owed = v.owed }
      go window_update_ = record { config = v.config; registry = v.registry; owed = v.owed }
      go ping_ = record { config = v.config; registry = v.registry; owed = v.owed }
      go go_away_ = record { config = v.config; registry = v.registry; owed = v.owed }

  pong-IsDone :
      (pending_pong : Option ℕ) (a : Active) → IsActive c a → IsDone (send_pong pending_pong a)
  pong-IsDone none a v = write-IsDone a.pending_write_frame a v
  pong-IsDone (some nonce) a v = record { config = v.config; registry = v.registry; owed = v.owed }

  terminate-IsDone :
      (pending_terminate : Option Frame) (a : Active)
      → IsActive c a
      → IsDone (send_terminate pending_terminate a)
  terminate-IsDone none a v = pong-IsDone a.pending_pong a v
  terminate-IsDone (some f) a v = record { config = v.config; registry = v.registry; owed = v.owed }

  ping-IsDone : (next : Option Frame × Rtt) (a : Active) → IsActive c a → IsDone (send_ping next a)
  ping-IsDone (none, rtt) a v = terminate-IsDone a.pending_terminate a v
  ping-IsDone (some f, rtt) a v =
      sent-IsActive f (record a { registry = record a.registry { rtt = rtt } })
        (with_rtt-IsActive rtt a v)

  pub write_frame-IsDone : (i : Inputs) (a : Active) → IsActive c a → IsDone (write_frame i a)
  unfolding write_frame
  write_frame-IsDone i a v = elim (Bool-cases i.socket_ready) [
    | inl e ↦ rw e (ping-IsDone (next_ping a.registry.rtt i.now i.sent_at i.nonce) a v)
    | inr e ↦ rw e tt
  ]

  pub staged-IsDone :
      (owed : IdMap Frame) (a : Active)
      → IsActive c a
      → a.registry.owed_close ≡ owed
      → IsDone (stage_first owed a)
  unfolding wake_slot_waiters
  staged-IsDone [] a v e = tt
  staged-IsDone ((id, f) ∷ rest) a v e = record {
    config = v.config;
    registry = record { bounded = v.registry.bounded; links = v.registry.links };
    owed = omega (arith, length-remove id a.registry.owed_close, v.owed);
  }

  pub stage_owed-IsDone : (a : Active) → IsActive c a → IsDone (stage_owed a)
  unfolding stage_owed
  stage_owed-IsDone a v = elim (Bool-cases (is_some a.pending_write_frame)) [
    | inl e ↦ rw e tt
    | inr e ↦ rw e (staged-IsDone a.registry.owed_close a v refl)
  ]
