-- ===== src/Mux/Header/Flags.antt =====
-- mux/mux/src/frame/header.rs: setting and testing the flags of a header.
use tlsn_utils.Base.{
  ℕ, zero, suc, ◌<◌, ◌≡◌, refl, Bool, true, false, ◌&&◌, ◌||◌, arith, IsByte, ◌==◌, ◌≤◌, ◌+◌, leb,
  leb→le, Bool-cases, inl, inr,
}
use Prim.Native.Nat.{bit_or}
use tlsn_utils.Mux.Header.{
  Header, contains, syn, ack, fin, rst, fin_flag, rst_flag, syn_flag, ack_flag,
}

-- The test on `count` numbers from `first` on.
every_from : ℕ → ℕ → (ℕ → Bool) → Bool
every_from zero first test = true
every_from (suc count) first test = elim (test first) [
  | false ↦ false
  | true ↦ every_from count (suc first) test
]

every_from-at :
    (count first : ℕ) (test : ℕ → Bool) (at : ℕ)
    → first ≤ at
    → at < first + count
    → every_from count first test ≡ true
    → test at ≡ true
unfolding every_from
every_from-at zero first test at low high passed = absurd (omega arith)
every_from-at (suc count) first test at low high passed = elim (Bool-cases (leb at first)) [
  | inl here ↦
      (let same_number : at ≡ first = omega (arith, leb→le at first here) in
        ground (arith, same_number))
  | inr later ↦ ground (arith, every_from-at count (suc first) test at)
]

abbrev same : Bool → Bool → Bool
same true b = b
same false true = false
same false false = true

same_eq : (a b : Bool) → same a b ≡ true → a ≡ b
same_eq true b h = ground (arith, h)
same_eq false true h = ground (arith, h)
same_eq false false h = refl

-- After `flags |= set`, the flag `test` is there if it is `set` or was there before.
after_set : ℕ → ℕ → ℕ → Bool
after_set set test f = same (contains (bit_or f set) test) (set == test || contains f test)

abbrev all_pairs : ℕ → Bool
all_pairs f =
    (after_set 1 1 f && after_set 1 2 f && after_set 1 4 f && after_set 1 8 f)
    && (after_set 2 1 f && after_set 2 2 f && after_set 2 4 f && after_set 2 8 f)
    && (after_set 4 1 f && after_set 4 2 f && after_set 4 4 f && after_set 4 8 f)
    && (after_set 8 1 f && after_set 8 2 f && after_set 8 4 f && after_set 8 8 f)

table : every_from 256 0 all_pairs ≡ true
unfolding every_from contains after_set
table = refl

pub data Flag : Type 0 where
  fin_ rst_ syn_ ack_ : Flag

abbrev pub value : Flag → ℕ
value fin_ = fin_flag
value rst_ = rst_flag
value syn_ = syn_flag
value ack_ = ack_flag

abbrev pub set_flag : Flag → Header → Header
set_flag fin_ h = fin h
set_flag rst_ h = rst h
set_flag syn_ h = syn h
set_flag ack_ h = ack h

row : (f : ℕ) (a b : Flag) → all_pairs f ≡ true → after_set (value a) (value b) f ≡ true
row f fin_ fin_ h = ground arith
row f fin_ rst_ h = ground arith
row f fin_ syn_ h = ground arith
row f fin_ ack_ h = ground arith
row f rst_ fin_ h = ground arith
row f rst_ rst_ h = ground arith
row f rst_ syn_ h = ground arith
row f rst_ ack_ h = ground arith
row f syn_ fin_ h = ground arith
row f syn_ rst_ h = ground arith
row f syn_ syn_ h = ground arith
row f syn_ ack_ h = ground arith
row f ack_ fin_ h = ground arith
row f ack_ rst_ h = ground arith
row f ack_ syn_ h = ground arith
row f ack_ ack_ h = ground arith

set_flag_fields :
    (a : Flag) (h : Header)
    → ((set_flag a h).flags ≡ bit_or h.flags (value a))
      × ((set_flag a h).tag ≡ h.tag)
      × ((set_flag a h).stream_id ≡ h.stream_id)
      × ((set_flag a h).length ≡ h.length)
unfolding fin rst syn ack
set_flag_fields fin_ h = (refl, refl, refl, refl)
set_flag_fields rst_ h = (refl, refl, refl, refl)
set_flag_fields syn_ h = (refl, refl, refl, refl)
set_flag_fields ack_ h = (refl, refl, refl, refl)

-- `syn`, `ack`, `fin` and `rst` set their own flag and no other one of the four, keep the flags that
-- were set, and change nothing else of the header.
pub set_flag_lem :
    (a b : Flag) (h : Header)
    → IsByte h.flags
    → (contains (set_flag a h).flags (value b) ≡ (value a == value b || contains h.flags (value b)))
      × ((set_flag a h).tag ≡ h.tag)
      × ((set_flag a h).stream_id ≡ h.stream_id)
      × ((set_flag a h).length ≡ h.length)
unfolding after_set
set_flag_lem a b h byte =
    let (f, t, s, l) = set_flag_fields a h in
    (
      rw f (
          same_eq _ _ (
            row h.flags a b
              (every_from-at 256 0 all_pairs h.flags (omega arith) (omega arith) table))),
      t,
      s,
      l,
    )
