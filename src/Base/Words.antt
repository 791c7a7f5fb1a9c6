-- ===== src/Base/Words.antt =====
-- Machine words as native numbers, with the checked and saturating operations of the source.
use Prim.Native.Nat.{ℕ, ◌≤◌, ◌<◌}

abbrev pub IsByte : ℕ → Type 0
IsByte b = b < 256

abbrev pub u32_max : ℕ
u32_max = 0xffff_ffff

-- `usize` is taken to have 64 bits.
abbrev pub usize_max : ℕ
usize_max = 0xffff_ffff_ffff_ffff

abbrev pub IsU32 : ℕ → Type 0
IsU32 n = n ≤ u32_max
