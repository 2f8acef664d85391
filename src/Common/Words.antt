-- ===== src/Common/Words.antt =====
-- Machine words as native numbers: the casts of C to the fixed widths, sign extension.
use Prim.Native.Nat.{ℕ, ◌+◌, ◌-◌, ◌%◌, ◌^◌}
use rapid_patch_runtime_ae.Common.Tests.{ltb, if◌then◌else◌}

abbrev pub u8 : ℕ → ℕ
u8 n = n % 2 ^ 8

abbrev pub u16 : ℕ → ℕ
u16 n = n % 2 ^ 16

abbrev pub u32 : ℕ → ℕ
u32 n = n % 2 ^ 32

abbrev pub u64 : ℕ → ℕ
u64 n = n % 2 ^ 64

-- An `s32` (bit pattern below 2 ^ 32) converted to `u64`.
abbrev pub sext32 : ℕ → ℕ
sext32 n = if ltb n (2 ^ 31) then n else n + (2 ^ 64 - 2 ^ 32)

-- An `s16` (bit pattern below 2 ^ 16) converted to `u64`.
abbrev pub sext16 : ℕ → ℕ
sext16 n = if ltb n (2 ^ 15) then n else n + (2 ^ 64 - 2 ^ 16)
