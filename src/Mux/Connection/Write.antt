-- ===== src/Mux/Connection/Write.antt =====
-- mux/mux/src/connection/stream.rs: `poll_write` of a stream with its connection's registry. The wake-up
-- of the driver at its end has no state.
use tlsn_utils.Base.{ℕ, ◌≤◌, ◌<◌, ◌≡◌, ◌⊎◌, Bool, true, false, Option, none, some, List}
use tlsn_utils.Mux.Config.{Config}
use tlsn_utils.Mux.Header.{StreamId}
use tlsn_utils.Mux.Frame.{Frame}
use tlsn_utils.Mux.Stream.{Shared, SenderPoll, WritePoll, write_activated}
use tlsn_utils.Mux.Stream.Laws.{IsWritten}
use tlsn_utils.Mux.Connection.IdMap.{lookup}
use tlsn_utils.Mux.Connection.Registry.{
  Registry, Activated, write_cell, active_slots, has_waker, poll_activate,
}

-- What a write finds at the channel to the connection: whether it is closed, what its `poll_ready`
-- answers, and whether its `start_send` succeeds.
pub record Sender : Type 0 where
  pub is_closed : Bool
  pub poll : SenderPoll
  pub takes : Bool

-- The answer, the address that the handle has from then on, the registry and the frame that was sent.
pub record Written : Type 0 where
  pub answer : WritePoll
  pub addr : ℕ
  pub registry : Registry
  pub sent : Option Frame

abbrev pub store : ℕ → Registry → WritePoll × Shared × Option Frame → Written
store addr r (answer, s, sent) = record {
  answer = answer;
  addr = addr;
  registry = write_cell addr s r;
  sent = sent;
}

abbrev pub after_activate :
    Sender → ℕ → Config → StreamId → List ℕ → Activated × ℕ × Registry → Written
after_activate sender waker config id buf (Activated.pending, addr, r) = record {
  answer = WritePoll.pending;
  addr = addr;
  registry = r;
  sent = none;
}
after_activate sender waker config id buf (Activated.ready, addr, r) =
    store addr r (write_activated sender.poll sender.takes waker config id (r.cells addr) buf)

unfoldable pub poll_write : Sender → ℕ → Config → StreamId → ℕ → List ℕ → Registry → Written
unfolding poll_activate write_activated
poll_write sender waker config id addr buf r =
    after_activate sender waker config id buf (poll_activate waker sender.is_closed id addr r)

-- The write waits for a slot: the stream has none, the peer has not opened it, all slots are taken, and
-- the channel is open; the task is registered for a slot.
pub record WaitsForSlot (sender : Sender) (waker : ℕ) (id : StreamId) (addr : ℕ) (r : Registry)
    (w : Written) : Type 0 where
  pub is_inactive : (r.cells addr).activated ≡ false
  pub unopened : lookup id r.streams ≡ none
  pub full : r.config.max_num_streams ≤ active_slots r
  pub channel_open : sender.is_closed ≡ false
  pub registered : has_waker waker w.registry.slot_wakers ≡ true
  pub answered : w.answer ≡ WritePoll.pending
  pub unsent : w.sent ≡ none
  pub same_cells : w.registry.cells ≡ r.cells

-- The cell that the write uses: that of a stream which has a slot, as it is; that of a stream which the
-- peer has opened; the stream's own, which now takes a slot and owes a SYN; or, if all slots are taken
-- and the channel is closed, the stream's own as it is.
abbrev pub HasCell : Sender → StreamId → ℕ → Registry → ℕ → Shared → Type 0
HasCell sender id addr r addr' s =
    (((r.cells addr).activated ≡ true) × (addr' ≡ addr) × (s ≡ r.cells addr))
    ⊎ ((((r.cells addr).activated ≡ false)
          × (lookup id r.streams ≡ some addr')
          × (s ≡ record (r.cells addr') { activated = true }))
        ⊎ ((((r.cells addr).activated ≡ false)
              × (lookup id r.streams ≡ none)
              × (active_slots r < r.config.max_num_streams)
              × (addr' ≡ addr)
              × (s ≡ record (r.cells addr) { activated = true; syn_pending = true }))
            ⊎ (((r.cells addr).activated ≡ false)
                × (lookup id r.streams ≡ none)
                × (r.config.max_num_streams ≤ active_slots r)
                × (sender.is_closed ≡ true)
                × (addr' ≡ addr)
                × (s ≡ r.cells addr))))

-- What the write of the cell `s` answers, by what the channel answers.
abbrev pub IsAnswered :
    SenderPoll → Bool → ℕ → Config → List ℕ → Shared → WritePoll × Shared × Option Frame → Type 0
IsAnswered SenderPoll.pending takes waker config buf s out = out ≡ (WritePoll.pending, s, none)
IsAnswered SenderPoll.gone takes waker config buf s out = out ≡ (WritePoll.write_zero, s, none)
IsAnswered SenderPoll.ready takes waker config buf s out = IsWritten takes waker config s buf out

pub record Proceeds (sender : Sender) (waker : ℕ) (config : Config) (id : StreamId) (addr : ℕ)
    (buf : List ℕ) (r : Registry) (w : Written) : Type 0 where
  pub cell : Shared
  pub held : HasCell sender id addr r w.addr cell
  pub answered :
      IsAnswered sender.poll sender.takes waker config buf cell
        (w.answer, w.registry.cells w.addr, w.sent)

module _ (sender : Sender) (waker : ℕ) (config : Config) (id : StreamId) (addr : ℕ) (buf : List ℕ)
    (r : Registry) where
  abbrev pub IsPolled : Written → Type 0
  IsPolled w = WaitsForSlot sender waker id addr r w ⊎ Proceeds sender waker config id addr buf r w
