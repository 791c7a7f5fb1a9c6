-- ===== src/Mux/Connection/Driver/Invariant.antt =====
-- mux/mux/src/connection/active.rs: the invariant of an active connection, kept by each round.
use tlsn_utils.Base.{◌≡◌, refl, Bool, true, false, Option, none, some, inl, inr, Bool-cases}
use tlsn_utils.Mux.Config.{Config}
use tlsn_utils.Mux.Rtt.{Action, nothing, pong, terminate}
use tlsn_utils.Mux.Connection.Active.{Active, OnFrame, handled, gone_away, on_frame}
use tlsn_utils.Mux.Connection.Driver.{
  FramePoll, frame, failed, ended, Inputs, Round, again, wait, stop, panicked, adopt_receivers,
  write_frame, stage_owed, take_command, act, after_frame, read_frame, after_command, after_owed,
  after_write, poll_round,
}
use tlsn_utils.Mux.Connection.Driver.Handlers.{IsActive, IsAccepted, on_frame-IsAccepted}
use tlsn_utils.Mux.Connection.Driver.Writes.{
  IsDone, write_frame-IsDone, stage_owed-IsDone, adopt_receivers-IsActive,
}
use tlsn_utils.Mux.Connection.Driver.Commands.{take_command-IsActive}

module _ (c : Config) where
  -- What a round leaves, however it ends.
  abbrev pub IsRound : Round → Type 0
  IsRound (again a) = IsActive c a
  IsRound (wait a) = IsActive c a
  IsRound (stop e a) = IsActive c a
  IsRound panicked = Unit

  act-IsActive : (action : Action) (a : Active) → IsActive c a → IsActive c (act action a)
  act-IsActive nothing a v = v
  act-IsActive (pong nonce) a v = record { config = v.config; registry = v.registry; owed = v.owed }
  act-IsActive (terminate f) a v = record {
    config = v.config;
    registry = v.registry;
    owed = v.owed;
  }

  after_frame-IsRound :
      (a : Active) (o : OnFrame) → IsActive c a → IsAccepted c o → IsRound (after_frame a o)
  after_frame-IsRound a (handled none) v h = tt
  after_frame-IsRound a (handled (some (action, a'))) v h = act-IsActive action a' h
  after_frame-IsRound a (gone_away e) v h = v

  read_frame-IsRound :
      (i : Inputs) (incoming : FramePoll) (a : Active)
      → IsActive c a
      → IsRound (read_frame i incoming a)
  unfolding read_frame
  read_frame-IsRound i (frame f) a v =
      after_frame-IsRound a (on_frame i.elapsed i.now f a) v
        (on_frame-IsAccepted c i.elapsed i.now f a v)
  read_frame-IsRound i failed a v = v
  read_frame-IsRound i ended a v = v
  read_frame-IsRound i FramePoll.pending a v = v

  after_command-IsRound :
      (i : Inputs) (out : Bool × Active) → IsActive c (out.1) → IsRound (after_command i out)
  after_command-IsRound i (true, a) v = v
  after_command-IsRound i (false, a) v = read_frame-IsRound i i.incoming a v

  after_owed-IsRound :
      (i : Inputs) (a : Active) (staged : Option Active)
      → IsActive c a
      → stage_owed a ≡ staged
      → IsDone c staged
      → IsRound (after_owed i a staged)
  after_owed-IsRound i a (some a') v e d = d
  after_owed-IsRound i a none v e d =
      after_command-IsRound i (take_command i.waker i.command a)
        (take_command-IsActive c i.waker i.command a v e)

  after_write-IsRound :
      (i : Inputs) (a : Active) (written : Option Active)
      → IsActive c a
      → IsDone c written
      → IsRound (after_write i a written)
  after_write-IsRound i a (some a') v d = d
  after_write-IsRound i a none v d = elim (Bool-cases i.flush_fails) [
    | inl e ↦ simp e v
    | inr e ↦ simp e (after_owed-IsRound i a (stage_owed a) v refl (stage_owed-IsDone c a v))
  ]

  pub poll_round-IsRound : (i : Inputs) (a : Active) → IsActive c a → IsRound (poll_round i a)
  unfolding poll_round
  poll_round-IsRound i a v =
      go (adopt_receivers i.new_receivers a) (adopt_receivers-IsActive c i.new_receivers a v)
    where
      go : (a' : Active) → IsActive c a' → IsRound (after_write i a' (write_frame i a'))
      go a' v' = after_write-IsRound i a' (write_frame i a') v' (write_frame-IsDone c i a' v')
