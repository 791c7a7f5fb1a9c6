-- ===== src/Mux/Connection/Closing/Woken.antt =====
-- mux/mux/src/connection/active.rs: the loops of `prepare_close` and `drop_all_streams` wake each task
-- that waits on a stream.
use tlsn_utils.Base.{
  ℕ, ◌≡◌, subst, true, Option, none, some, List, [], ◌∷◌, ◌++◌, ◌==◌, All, arith, ◌⊎◌, inl, inr,
  Bool-cases,
}
use tlsn_utils.Mux.Header.{StreamId}
use tlsn_utils.Mux.Stream.{Shared, State}
use tlsn_utils.Mux.Connection.IdMap.{IdMap}
use tlsn_utils.Mux.Connection.Registry.Links.{All-map}
use tlsn_utils.Mux.Connection.Registry.{Registry, has_waker, to_wake, close_and_wake}
use tlsn_utils.Mux.Connection.Driver.{close_all}

pub has_waker-append_left :
    (w : ℕ) (xs ys : List ℕ) → has_waker w xs ≡ true → has_waker w (xs ++ ys) ≡ true
has_waker-append_left w [] ys h = cc
has_waker-append_left w (x ∷ xs) ys h = ground (arith, has_waker-append_left w xs ys)

pub has_waker-append_right :
    (w : ℕ) (xs ys : List ℕ) → has_waker w ys ≡ true → has_waker w (xs ++ ys) ≡ true
has_waker-append_right w [] ys h = h
has_waker-append_right w (x ∷ xs) ys h = ground (arith, has_waker-append_right w xs ys h)

-- Every task that waits on the cell is among the woken ones.
abbrev pub AreWoken : Shared → List ℕ → Type 0
AreWoken s woken = (w : ℕ) → (s.reader ≡ some w) ⊎ (s.writer ≡ some w) → has_waker w woken ≡ true

has_waker-wake :
    (w : ℕ) (reader writer : Option ℕ)
    → (reader ≡ some w) ⊎ (writer ≡ some w)
    → has_waker w (to_wake reader ++ to_wake writer) ≡ true
has_waker-wake w (some v) writer (inl h) = ground arith
has_waker-wake w none writer (inl h) = cc
has_waker-wake w (some v) (some u) (inr h) = ground arith
has_waker-wake w none (some u) (inr h) = ground arith
has_waker-wake w reader none (inr h) = cc

module _ (next : State) where
  close_and_wake-AreWoken :
      (addr : ℕ) (r : Registry) → AreWoken (r.cells addr) ((close_and_wake next addr r).woken)
  unfolding close_and_wake
  close_and_wake-AreWoken addr r w h =
      has_waker-append_right w r.woken
        (to_wake ((r.cells addr).reader) ++ to_wake ((r.cells addr).writer))
        (has_waker-wake w ((r.cells addr).reader) ((r.cells addr).writer) h)

  close_and_wake-still :
      (addr : ℕ) (r : Registry) (w : ℕ)
      → has_waker w r.woken ≡ true
      → has_waker w ((close_and_wake next addr r).woken) ≡ true
  unfolding close_and_wake
  close_and_wake-still addr r w h =
      has_waker-append_left w r.woken
        (to_wake ((r.cells addr).reader) ++ to_wake ((r.cells addr).writer)) h

  pub close_all-still :
      (m : IdMap ℕ) (r : Registry) (w : ℕ)
      → has_waker w r.woken ≡ true
      → has_waker w ((close_all next m r).woken) ≡ true
  unfolding close_all
  close_all-still [] r w h = h
  close_all-still ((id, addr) ∷ m) r w h =
      close_all-still m (close_and_wake next addr r) w (close_and_wake-still addr r w h)

  -- A task that waited before a cell was closed is woken by it, or still waits.
  AreWoken-before :
      (addr other : ℕ) (r : Registry) (woken : List ℕ)
      → ((w : ℕ)
          → has_waker w ((close_and_wake next addr r).woken) ≡ true
          → has_waker w woken ≡ true)
      → AreWoken ((close_and_wake next addr r).cells other) woken
      → AreWoken (r.cells other) woken
  unfolding close_and_wake
  AreWoken-before addr other r woken still h w waits = elim (Bool-cases (other == addr)) [
    | inl e ↦ still w (
        close_and_wake-AreWoken addr r w (
          subst (λ b. ((r.cells b).reader ≡ some w) ⊎ ((r.cells b).writer ≡ some w)) (ground arith)
            waits))
    | inr e ↦ h w (rw e waits)
  ]

  pub close_all-AreWoken :
      (m : IdMap ℕ) (r : Registry)
      → All (λ (e : StreamId × ℕ). AreWoken (r.cells e.1) ((close_all next m r).woken)) m
  unfolding close_all
  close_all-AreWoken [] r = tt
  close_all-AreWoken ((id, addr) ∷ m) r = (
    λ w h. close_all-still m (close_and_wake next addr r) w (close_and_wake-AreWoken addr r w h),
    All-map
        (λ (e : StreamId × ℕ).
          AreWoken ((close_and_wake next addr r).cells e.1)
            ((close_all next m (close_and_wake next addr r)).woken))
        (λ (e : StreamId × ℕ).
          AreWoken (r.cells e.1) ((close_all next m (close_and_wake next addr r)).woken))
        m
        (λ e h.
          AreWoken-before addr (e.1) r ((close_all next m (close_and_wake next addr r)).woken)
            (close_all-still m (close_and_wake next addr r)) h)
        (close_all-AreWoken m (close_and_wake next addr r)),
  )

  pub close_all-before :
      (m : IdMap ℕ) (other : ℕ) (r : Registry) (woken : List ℕ)
      → ((w : ℕ) → has_waker w ((close_all next m r).woken) ≡ true → has_waker w woken ≡ true)
      → AreWoken ((close_all next m r).cells other) woken
      → AreWoken (r.cells other) woken
  unfolding close_all
  close_all-before [] other r woken still h = h
  close_all-before ((id, addr) ∷ m) other r woken still h =
      AreWoken-before addr other r woken
        (λ w k. still w (close_all-still m (close_and_wake next addr r) w k))
        (close_all-before m other (close_and_wake next addr r) woken still h)
