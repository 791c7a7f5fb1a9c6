-- ===== src/Mux/Connection/Closing/Over.antt =====
-- mux/mux/src/connection/active.rs: what `prepare_close` and `drop_all_streams` leave for the streams'
-- tasks.
use tlsn_utils.Base.{ℕ, ◌≡◌, refl, ◌∙◌, true, [], ◌∷◌, All}
use tlsn_utils.Mux.Header.{StreamId}
use tlsn_utils.Mux.Stream.{State, recv_closed, closed}
use tlsn_utils.Mux.Connection.IdMap.{IdMap}
use tlsn_utils.Mux.Connection.Registry.Links.{All-map, All-both}
use tlsn_utils.Mux.Connection.Registry.{Registry, has_waker, close_and_wake, wake_slot_waiters}
use tlsn_utils.Mux.Connection.Driver.{close_all, prepare_close, drop_all_streams}
use tlsn_utils.Mux.Connection.Closing.Released.{
  IsReleased, IsEnd, recv_closed-IsEnd, closed-IsEnd, close_all-keeps, close_all-IsReleased,
}
use tlsn_utils.Mux.Connection.Closing.Woken.{
  AreWoken, has_waker-append_left, has_waker-append_right, close_all-still, close_all-AreWoken,
  close_all-before,
}

-- The streams of `m`, whose cells were those of `r`, are at an end in `r'`.
abbrev pub AreOver : Registry → Registry → IdMap ℕ → Type 0
AreOver r r' m =
    All (λ (e : StreamId × ℕ). IsReleased (r'.cells e.1) × AreWoken (r.cells e.1) r'.woken) m

pub record IsOver (r r' : Registry) : Type 0 where
  pub streams : AreOver r r' r.streams
  pub inactive : AreOver r r' r.inactive
  pub slots : (w : ℕ) → has_waker w r.slot_wakers ≡ true → has_waker w r'.woken ≡ true
  pub none_waits : r'.slot_wakers ≡ []

-- The two loops and the wake-up of those who wait for a slot, from a registry with the cells of `r`.
module _ (next : State) (end : IsEnd next) (s i : IdMap ℕ) (r : Registry) where
  abbrev first : Registry
  first = close_all next s r

  abbrev both : Registry
  both = close_all next i first

  still_both :
      (w : ℕ) → has_waker w first.woken ≡ true → has_waker w (wake_slot_waiters both).woken ≡ true
  unfolding wake_slot_waiters
  still_both w h =
      has_waker-append_left w both.woken both.slot_wakers (close_all-still next i first w h)

  over_streams :
      All
        (λ (e : StreamId × ℕ).
          IsReleased ((wake_slot_waiters both).cells e.1)
          × AreWoken (r.cells e.1) (wake_slot_waiters both).woken)
        s
  unfolding wake_slot_waiters
  over_streams =
      All-both (λ (e : StreamId × ℕ). IsReleased (both.cells e.1))
        (λ (e : StreamId × ℕ). AreWoken (r.cells e.1) (wake_slot_waiters both).woken) s
        (All-map (λ (e : StreamId × ℕ). IsReleased (first.cells e.1))
          (λ (e : StreamId × ℕ). IsReleased (both.cells e.1)) s
          (λ e h. close_all-keeps next end i (e.1) first h) (close_all-IsReleased next end s r))
        (All-map (λ (e : StreamId × ℕ). AreWoken (r.cells e.1) first.woken)
          (λ (e : StreamId × ℕ). AreWoken (r.cells e.1) (wake_slot_waiters both).woken) s
          (λ e h w waits. still_both w (h w waits)) (close_all-AreWoken next s r))

  over_inactive :
      All
        (λ (e : StreamId × ℕ).
          IsReleased ((wake_slot_waiters both).cells e.1)
          × AreWoken (r.cells e.1) (wake_slot_waiters both).woken)
        i
  unfolding wake_slot_waiters
  over_inactive =
      All-both (λ (e : StreamId × ℕ). IsReleased (both.cells e.1))
        (λ (e : StreamId × ℕ). AreWoken (r.cells e.1) (wake_slot_waiters both).woken) i
        (close_all-IsReleased next end i first)
        (All-map (λ (e : StreamId × ℕ). AreWoken (first.cells e.1) both.woken)
          (λ (e : StreamId × ℕ). AreWoken (r.cells e.1) (wake_slot_waiters both).woken) i
          (λ e h.
            close_all-before next s (e.1) r (wake_slot_waiters both).woken still_both
              (λ w waits. has_waker-append_left w both.woken both.slot_wakers (h w waits)))
          (close_all-AreWoken next i first))

close_all-maps :
    (next : State) (m : IdMap ℕ) (r : Registry)
    → ((close_all next m r).streams ≡ r.streams) × ((close_all next m r).inactive ≡ r.inactive)
unfolding close_all close_and_wake
close_all-maps next [] r = (refl, refl)
close_all-maps next ((id, addr) ∷ m) r = close_all-maps next m (close_and_wake next addr r)

close_all-slots :
    (next : State) (m : IdMap ℕ) (r : Registry) → (close_all next m r).slot_wakers ≡ r.slot_wakers
unfolding close_all close_and_wake
close_all-slots next [] r = refl
close_all-slots next ((id, addr) ∷ m) r = close_all-slots next m (close_and_wake next addr r)

slots_woken :
    (next : State) (s i : IdMap ℕ) (r : Registry) (w : ℕ)
    → has_waker w r.slot_wakers ≡ true
    → has_waker w (wake_slot_waiters (close_all next i (close_all next s r))).woken ≡ true
unfolding wake_slot_waiters
slots_woken next s i r w h =
    has_waker-append_right w (close_all next i (close_all next s r)).woken
      (close_all next i (close_all next s r)).slot_wakers
      (rw (close_all-slots next i (close_all next s r), close_all-slots next s r) h)

no_slot_waits : (r : Registry) → (wake_slot_waiters r).slot_wakers ≡ []
unfolding wake_slot_waiters
no_slot_waits r = refl

-- When the connection starts to close, no stream can receive any more, no task waits for one, and every
-- task that waited to read, to write or for a slot has been woken.
pub prepare_close-IsOver : (r : Registry) → IsOver r (prepare_close r)
unfolding prepare_close
prepare_close-IsOver r = record {
  streams = over_streams recv_closed recv_closed-IsEnd r.streams r.inactive r;
  inactive = over_inactive recv_closed recv_closed-IsEnd r.streams r.inactive r;
  slots = slots_woken recv_closed r.streams r.inactive r;
  none_waits = no_slot_waits (close_all recv_closed r.inactive (close_all recv_closed r.streams r));
}

emptied_maps :
    (r : Registry) → ((drop_all_streams r).streams ≡ []) × ((drop_all_streams r).inactive ≡ [])
unfolding drop_all_streams
emptied_maps r =
    let emptied = record r { streams = []; inactive = [] } in
    let first = close_all closed r.streams emptied in
    (
      (close_all-maps closed r.inactive first).0 ∙ (close_all-maps closed r.streams emptied).0,
      (close_all-maps closed r.inactive first).1 ∙ (close_all-maps closed r.streams emptied).1,
    )

-- When the connection is dropped, both maps are empty, no stream can receive any more, no task waits for
-- one, and every task that waited to read, to write or for a slot has been woken.
pub drop_all_streams-IsOver :
    (r : Registry)
    → IsOver r (drop_all_streams r)
      × ((drop_all_streams r).streams ≡ [])
      × ((drop_all_streams r).inactive ≡ [])
unfolding drop_all_streams
drop_all_streams-IsOver r =
    let emptied = record r { streams = []; inactive = [] } in
    (
      record {
        streams = over_streams closed closed-IsEnd r.streams r.inactive emptied;
        inactive = over_inactive closed closed-IsEnd r.streams r.inactive emptied;
        slots = slots_woken closed r.streams r.inactive emptied;
        none_waits =
            no_slot_waits (close_all closed r.inactive (close_all closed r.streams emptied));
      },
      (emptied_maps r).0,
      (emptied_maps r).1,
    )
