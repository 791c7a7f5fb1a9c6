-- ===== src/Limit/Delay/Laws.antt =====
-- futures-limit/src/delay.rs: what a read gives, in a state whose packets account for the buffer.
use tlsn_utils.Base.{
  ℕ, ◌+◌, ◌-◌, ◌/◌, ◌≤◌, ◌<◌, ◌≡◌, refl, sym, ap, min, Bool, true, false, Option, none, some, List,
  [], ◌∷◌, ◌++◌, ltb, ◌==◌, if◌then◌else◌, length, take, drop, length-take, length-drop,
  take-append-drop, All, arith, ◌⊎◌, inl, inr, Bool-cases,
}
use tlsn_utils.Limit.Delay.{
  Packet, Simplex, Scan, is_early, scan, ReadPoll, pending, ready, take_scanned, after_scan,
  poll_read,
}

abbrev pub total : List Packet → ℕ
total [] = 0
total (p ∷ ps) = p.len + total ps

abbrev pub millisecond : ℕ
millisecond = 1000000

-- The bytes of the packets that are less than a millisecond from their time, before the first one that
-- is not.
unfoldable pub ripe : ℕ → List Packet → ℕ
ripe now [] = 0
ripe now (p ∷ ps) = if ltb p.ready_at (now + millisecond) then p.len + ripe now ps else 0

late_enough :
    (now : ℕ) (p : Packet) → is_early now p ≡ false → ltb p.ready_at (now + millisecond) ≡ true
late_enough now p e =
    let none_left : (p.ready_at - now) / 1000000 ≡ 0 = ground arith in ground arith

too_soon :
    (now : ℕ) (p : Packet) → is_early now p ≡ true → ltb p.ready_at (now + millisecond) ≡ false
too_soon now p e = let left : 1 ≤ (p.ready_at - now) / 1000000 = ground arith in ground arith

-- The packets account for the bytes, and none is empty.
pub record IsQueue (s : Simplex) : Type 0 where
  pub accounts : total s.packets ≡ length s.buf
  pub full : All (λ (p : Packet). 1 ≤ p.len) s.packets

pub record IsScan (now m : ℕ) (ps : List Packet) (r : ℕ) (ps' : List Packet) (stopped : Bool)
    : Type 0 where
  pub left : r + min m (ripe now ps) ≡ m
  pub kept : total ps' + min m (ripe now ps) ≡ total ps
  pub full : All (λ (p : Packet). 1 ≤ p.len) ps → All (λ (p : Packet). 1 ≤ p.len) ps'
  pub whole : stopped ≡ false → (m ≤ ripe now ps) ⊎ (ripe now ps ≡ total ps)

abbrev IsScanned : ℕ → ℕ → List Packet → Scan → Type 0
IsScanned now m ps (r, ps', stopped) = IsScan now m ps r ps' stopped

ripe_early :
    (now : ℕ) (p : Packet) (ps : List Packet) → is_early now p ≡ true → ripe now (p ∷ ps) ≡ 0
unfolding ripe
ripe_early now p ps e = rw (too_soon now p e) refl

ripe_come :
    (now : ℕ) (p : Packet) (ps : List Packet)
    → is_early now p ≡ false
    → ripe now (p ∷ ps) ≡ p.len + ripe now ps
unfolding ripe
ripe_come now p ps e = rw (late_enough now p e) refl

ripe_none : (now : ℕ) → ripe now [] ≡ 0
unfolding ripe
ripe_none now = refl

-- The rounds that end the loop, and the one that goes on.
part_lem :
    (now m : ℕ) (p : Packet) (ps : List Packet)
    → is_early now p ≡ false
    → m < p.len
    → IsScan now m (p ∷ ps) 0 (record p { len = p.len - m } ∷ ps) false
part_lem now m p ps e h =
    let come : ripe now (p ∷ ps) ≡ p.len + ripe now ps = ripe_come now p ps e in
    record {
      left = omega (arith, come);
      kept = omega (arith, come);
      full = λ k. (omega arith, k.1);
      whole = λ f. inl (omega (arith, come));
    }

done_lem :
    (now m : ℕ) (p : Packet) (ps : List Packet)
    → is_early now p ≡ false
    → m ≡ p.len
    → IsScan now m (p ∷ ps) 0 ps false
done_lem now m p ps e h =
    let come : ripe now (p ∷ ps) ≡ p.len + ripe now ps = ripe_come now p ps e in
    record {
      left = omega (arith, come);
      kept = omega (arith, come);
      full = λ k. k.1;
      whole = λ f. inl (omega (arith, come));
    }

more_lem :
    (now m : ℕ) (p : Packet) (ps : List Packet) (out : Scan)
    → is_early now p ≡ false
    → p.len ≤ m
    → IsScanned now (m - p.len) ps out
    → IsScanned now m (p ∷ ps) out
more_lem now m p ps (r, ps', stopped) e h v =
    let come : ripe now (p ∷ ps) ≡ p.len + ripe now ps = ripe_come now p ps e in
    record {
      left = omega (arith, come, v.left);
      kept = omega (arith, come, v.kept);
      full = λ k. v.full k.1;
      whole = λ f. go come (v.whole f);
    }
  where
    go :
        ripe now (p ∷ ps) ≡ p.len + ripe now ps
        → (m - p.len ≤ ripe now ps) ⊎ (ripe now ps ≡ total ps)
        → (m ≤ ripe now (p ∷ ps)) ⊎ (ripe now (p ∷ ps) ≡ total (p ∷ ps))
    go come (inl k) = inl (omega (arith, come))
    go come (inr k) = inr (omega (arith, come))

scan-IsScanned : (now m : ℕ) (ps : List Packet) → IsScanned now m ps (scan now m ps)
unfolding scan
scan-IsScanned now m [] = record {
  left = omega (arith, ripe_none now);
  kept = omega (arith, ripe_none now);
  full = λ h. h;
  whole = λ e. inr (ripe_none now);
}
scan-IsScanned now m (p ∷ ps) = elim (Bool-cases (is_early now p)) [
  | inl early ↦ rw early (record {
    left = omega (arith, ripe_early now p ps early);
    kept = omega (arith, ripe_early now p ps early);
    full = λ h. h;
    whole = λ e. absurd (ground arith);
  })
  | inr come ↦ elim (Bool-cases (ltb m p.len)) [
    | inl part ↦ rw (come, part) (part_lem now m p ps come (ground arith))
    | inr all ↦ elim (Bool-cases (m - p.len == 0)) [
      | inl done ↦ rw (come, all, done) (done_lem now m p ps come (ground arith))
      | inr more ↦
          rw (come, all, more)
            (more_lem now m p ps (scan now (m - p.len) ps) come (ground arith)
              (scan-IsScanned now (m - p.len) ps))
    ]
  ]
]

-- What a read may answer, with room for `size` bytes at the time `now`.
abbrev pub IsDelayed : ℕ → ℕ → ℕ → Simplex → Option (ReadPoll × Simplex) → Type 0
IsDelayed now waker size s none = ⊥
IsDelayed now waker size s (some (ready bytes, s')) =
    (s.buf ≡ bytes ++ s'.buf)
    × IsQueue s'
    × ((length bytes ≡ min size (ripe now s.packets))
        × ((bytes ≡ []) → (s.buf ≡ []) × (s.is_closed ≡ true)))
IsDelayed now waker size s (some (pending, s')) =
    (s'.buf ≡ s.buf)
    × IsQueue s'
    × (((s.buf ≡ []) × (s.is_closed ≡ false) × (s'.read_waker ≡ some waker))
        ⊎ ((size ≡ 0) ⊎ ((ripe now s.packets ≡ 0) × (s'.read_timer ≡ some waker))))

ripe-le : (now : ℕ) (ps : List Packet) → ripe now ps ≤ total ps
unfolding ripe
ripe-le now [] = omega arith
ripe-le now (p ∷ ps) = ground (arith, ripe-le now ps)

module _ (now waker size : ℕ) (s : Simplex) (v : IsQueue s) where
  abbrev most : ℕ
  most = min (length s.buf) size

  -- The bytes that a scan allows are taken from the front.
  taken-IsDelayed :
      (r : ℕ) (ps : List Packet) (stopped : Bool) (t : Simplex)
      → IsScan now most s.packets r ps stopped
      → t.buf ≡ s.buf
      → (r == most) ≡ false
      → IsDelayed now waker size s (
          some
            (ready (take (most - r) t.buf), record t { packets = ps; buf = drop (most - r) t.buf }))
  taken-IsDelayed r ps stopped t w e more =
      let below : ripe now s.packets ≤ total s.packets = ripe-le now s.packets in
      let less : r < most = ground (arith, w.left) in
      rw e (
        sym (take-append-drop (most - r) s.buf),
        record {
          accounts = omega (arith, w.kept, w.left, v.accounts, length-drop (most - r) s.buf);
          full = w.full v.full;
        },
        (
          omega (arith, w.left, v.accounts, below, length-take (most - r) s.buf),
          λ f. absurd (omega (arith, ap length f, length-take (most - r) s.buf, less)),
        ),
      )

  scanned-IsDelayed :
      (r : ℕ) (ps : List Packet) (stopped : Bool) (t : Simplex)
      → IsScan now most s.packets r ps stopped
      → t.buf ≡ s.buf
      → IsQueue t
      → ((r == most) ≡ true → (size ≡ 0) ⊎ ((ripe now s.packets ≡ 0) × (t.read_timer ≡ some waker)))
      → IsDelayed now waker size s (some (take_scanned most r ps t))
  scanned-IsDelayed r ps stopped t w e q why = elim (Bool-cases (r == most)) [
    | inl f ↦ rw f (e, q, inr (why f))
    | inr f ↦ rw f (taken-IsDelayed r ps stopped t w e f)
  ]

  scan-IsDelayed :
      (out : Scan)
      → IsScanned now most s.packets out
      → (length s.buf == 0) ≡ false
      → IsDelayed now waker size s (after_scan true waker most s out)
  scan-IsDelayed (r, ps, false) w some_ =
      scanned-IsDelayed r ps false s w refl v
        (λ f. inl (none_left (w.whole refl) (ground (arith, w.left))))
    where
      none_left :
          (most ≤ ripe now s.packets) ⊎ (ripe now s.packets ≡ total s.packets)
          → min most (ripe now s.packets) ≡ 0
          → size ≡ 0
      none_left (inl h) k = ground arith
      none_left (inr h) k = ground (arith, v.accounts)
  scan-IsDelayed (r, ps, true) w some_ =
      scanned-IsDelayed r ps true (record s { read_timer = some waker }) w refl
        (record { accounts = v.accounts; full = v.full }) (λ f. early (ground (arith, w.left)))
    where
      early :
          min most (ripe now s.packets) ≡ 0
          → (size ≡ 0) ⊎ ((ripe now s.packets ≡ 0) × (some waker ≡ some waker))
      early k = elim (Bool-cases (size == 0)) [
        | inl h ↦ inl (ground arith)
        | inr h ↦ inr (ground arith, refl)
      ]

  nothing : (xs : List ℕ) → (length xs == 0) ≡ true → length xs ≡ 0
  nothing xs e = ground arith

  length-nil : (xs : List ℕ) → length xs ≡ 0 → xs ≡ []
  length-nil [] e = refl
  length-nil (x ∷ xs) e = absurd (omega arith)

  -- A read of a queue whose packets account for its bytes, with a timer that works, never panics. It gives
  -- the oldest bytes, in their order: exactly as many as there is room for among those that are less than a
  -- millisecond from their time, or past it, and none of a packet further from its time or behind such a
  -- packet. It is pending only if there is no room, or if a task is registered: for new bytes where there
  -- are none, or for the time of the oldest ones. The end is given only at the end. The packets
  -- account for the bytes afterwards.
  pub poll_read-IsDelayed : IsDelayed now waker size s (poll_read now true waker size s)
  unfolding poll_read
  poll_read-IsDelayed = elim (Bool-cases (length s.buf == 0)) [
    | inr e ↦ rw e (scan-IsDelayed (scan now most s.packets) (scan-IsScanned now most s.packets) e)
    | inl e ↦ elim (Bool-cases s.is_closed) [
      | inl f ↦
          simp (e, f)
            (
              refl,
              v,
              (
                omega (arith, ripe-le now s.packets, v.accounts, nothing s.buf e),
                λ g. (length-nil s.buf (nothing s.buf e), refl),
              ),
            )
      | inr f ↦
          simp (e, f)
            (
              refl,
              record { accounts = v.accounts; full = v.full },
              inl (length-nil s.buf (nothing s.buf e), refl, refl),
            )
    ]
  ]
