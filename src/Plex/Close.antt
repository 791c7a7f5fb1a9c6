-- ===== src/Plex/Close.antt =====
-- futures-plex/src/lib.rs: a close that takes no lock, against a reader that parks. The steps of the two
-- may come in any order: a reader in `poll_get` on an empty buffer loads the flag, registers its waker and
-- loads the flag again; `CloseState::close_write` stores the flag, takes the waker and wakes it. The
-- writer's side (`poll_mut` and `close_read`) has the same steps.
use tlsn_utils.Base.{
  ℕ, ◌≡◌, refl, Bool, true, false, ◌||◌, Option, none, some, ◌==◌, if◌then◌else◌, arith,
}

-- What the reader has done: nothing, the first load, the registration; or its answer.
pub data Reader : Type 0 where
  start : Reader
  loaded : Reader
  registered : Reader
  ended : Reader
  parked : Reader

-- What the closer has done: nothing, the store, the `take`; or all, with the waker woken.
pub data Closer : Type 0 where
  start : Closer
  stored : Closer
  took : Option ℕ → Closer
  finished : Closer

-- The flag, the waker in `read_closer`, where the two are, and whether the reader's task was woken.
pub data CloseState : Type 0 where
  state : Bool → Option ℕ → Reader → Closer → Bool → CloseState

abbrev is_task : ℕ → Option ℕ → Bool
is_task task none = false
is_task task (some w) = w == task

-- The next step of `poll_get`, on an empty buffer.
unfoldable pub reader_step : ℕ → CloseState → CloseState
reader_step task (state closed slot Reader.start c woken) =
    state closed slot (if closed then ended else loaded) c woken
reader_step task (state closed slot loaded c woken) = state closed (some task) registered c woken
reader_step task (state closed slot registered c woken) =
    state closed slot (if closed then ended else parked) c woken
reader_step task (state closed slot ended c woken) = state closed slot ended c woken
reader_step task (state closed slot parked c woken) = state closed slot parked c woken

-- The next step of `close_write`, and then of its caller, which wakes the waker.
unfoldable pub closer_step : ℕ → CloseState → CloseState
closer_step task (state closed slot r Closer.start woken) = state true slot r stored woken
closer_step task (state closed slot r stored woken) = state closed none r (took slot) woken
closer_step task (state closed slot r (took w) woken) =
    state closed slot r finished (woken || is_task task w)
closer_step task (state closed slot r finished woken) = state closed slot r finished woken

-- The steps of both, in any order, from an open pipe with any older waker in the slot.
pub data Reach (task : ℕ) : CloseState → Type 0 where
  open_ : (slot : Option ℕ) → Reach task (state false slot Reader.start Closer.start false)
  read : {s : CloseState} → Reach task s → Reach task (reader_step task s)
  close : {s : CloseState} → Reach task s → Reach task (closer_step task s)

-- What holds wherever the two are.
abbrev IsSafe : ℕ → CloseState → Type 0
IsSafe task (state closed slot registered Closer.start woken) =
    (closed ≡ false) × (slot ≡ some task)
IsSafe task (state closed slot parked Closer.start woken) = (closed ≡ false) × (slot ≡ some task)
IsSafe task (state closed slot r Closer.start woken) = closed ≡ false
IsSafe task (state closed slot registered stored woken) = (closed ≡ true) × (slot ≡ some task)
IsSafe task (state closed slot parked stored woken) = (closed ≡ true) × (slot ≡ some task)
IsSafe task (state closed slot r stored woken) = closed ≡ true
IsSafe task (state closed slot parked (took w) woken) = (closed ≡ true) × (w ≡ some task)
IsSafe task (state closed slot r (took w) woken) = closed ≡ true
IsSafe task (state closed slot parked finished woken) = (closed ≡ true) × (woken ≡ true)
IsSafe task (state closed slot r finished woken) = closed ≡ true

reader_step-IsSafe : (task : ℕ) (s : CloseState) → IsSafe task s → IsSafe task (reader_step task s)
unfolding reader_step
reader_step-IsSafe task (state closed slot Reader.start Closer.start woken) h = rw h refl
reader_step-IsSafe task (state closed slot Reader.start stored woken) h = rw h refl
reader_step-IsSafe task (state closed slot Reader.start (took w) woken) h = rw h refl
reader_step-IsSafe task (state closed slot Reader.start finished woken) h = rw h refl
reader_step-IsSafe task (state closed slot loaded Closer.start woken) h = (h, refl)
reader_step-IsSafe task (state closed slot loaded stored woken) h = (h, refl)
reader_step-IsSafe task (state closed slot loaded (took w) woken) h = h
reader_step-IsSafe task (state closed slot loaded finished woken) h = h
reader_step-IsSafe task (state closed slot registered Closer.start woken) (h, k) = rw h (refl, k)
reader_step-IsSafe task (state closed slot registered stored woken) (h, k) = rw h refl
reader_step-IsSafe task (state closed slot registered (took w) woken) h = rw h refl
reader_step-IsSafe task (state closed slot registered finished woken) h = rw h refl
reader_step-IsSafe task (state closed slot ended c woken) h = h
reader_step-IsSafe task (state closed slot parked c woken) h = h

closer_step-IsSafe : (task : ℕ) (s : CloseState) → IsSafe task s → IsSafe task (closer_step task s)
unfolding closer_step
closer_step-IsSafe task (state closed slot Reader.start Closer.start woken) h = refl
closer_step-IsSafe task (state closed slot loaded Closer.start woken) h = refl
closer_step-IsSafe task (state closed slot registered Closer.start woken) (h, k) = (refl, k)
closer_step-IsSafe task (state closed slot ended Closer.start woken) h = refl
closer_step-IsSafe task (state closed slot parked Closer.start woken) (h, k) = (refl, k)
closer_step-IsSafe task (state closed slot Reader.start stored woken) h = h
closer_step-IsSafe task (state closed slot loaded stored woken) h = h
closer_step-IsSafe task (state closed slot registered stored woken) (h, k) = h
closer_step-IsSafe task (state closed slot ended stored woken) h = h
closer_step-IsSafe task (state closed slot parked stored woken) (h, k) = (h, k)
closer_step-IsSafe task (state closed slot Reader.start (took w) woken) h = h
closer_step-IsSafe task (state closed slot loaded (took w) woken) h = h
closer_step-IsSafe task (state closed slot registered (took w) woken) h = h
closer_step-IsSafe task (state closed slot ended (took w) woken) h = h
closer_step-IsSafe task (state closed slot parked (took w) woken) (h, k) = (h, rw k (ground arith))
closer_step-IsSafe task (state closed slot r finished woken) h = h

Reach-IsSafe : (task : ℕ) {s : CloseState} → Reach task s → IsSafe task s
Reach-IsSafe task (open_ slot) = refl
Reach-IsSafe task (read {s = s} r) = reader_step-IsSafe task s (Reach-IsSafe task r)
Reach-IsSafe task (close {s = s} r) = closer_step-IsSafe task s (Reach-IsSafe task r)

-- No wake-up is lost: in whatever order the steps of a reader and of a close come, and whatever waker was
-- registered before, a reader that has parked has been woken once the close is over.
pub Reach-woken :
    (task : ℕ) (closed woken : Bool) (slot : Option ℕ)
    → Reach task (state closed slot parked finished woken)
    → woken ≡ true
Reach-woken task closed woken slot r = (Reach-IsSafe task r).1
