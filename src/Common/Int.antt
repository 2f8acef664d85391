-- ===== src/Common/Int.antt =====
-- Signed integers: the numbers that two's complement bit patterns stand for.
use Prim.Native.Nat.{ℕ, ◌-◌, ◌/◌, ◌%◌, ◌^◌}
use mathlib.Core.Bool.{Bool, true, false}
use rapid_patch_runtime_ae.Common.Tests.{ltb, leb, if◌then◌else◌}

-- `negsuc n` is -(n + 1).
pub data ℤ : Type 0 where
  pos : ℕ → ℤ
  negsuc : ℕ → ℤ

abbrev pub lt_z : ℤ → ℤ → Bool
lt_z (pos a) (pos b) = ltb a b
lt_z (pos a) (negsuc b) = false
lt_z (negsuc a) (pos b) = true
lt_z (negsuc a) (negsuc b) = ltb b a

abbrev pub le_z : ℤ → ℤ → Bool
le_z (pos a) (pos b) = leb a b
le_z (pos a) (negsuc b) = false
le_z (negsuc a) (pos b) = true
le_z (negsuc a) (negsuc b) = leb b a

-- The integers that the patterns of `s32` and `s64` stand for.
abbrev pub signed32 : ℕ → ℤ
signed32 w = if ltb w (2 ^ 31) then pos w else negsuc (2 ^ 32 - 1 - w)

abbrev pub signed64 : ℕ → ℤ
signed64 w = if ltb w (2 ^ 63) then pos w else negsuc (2 ^ 64 - 1 - w)

-- `>>` on a signed integer, rounding towards minus infinity.
abbrev pub shr_z : ℤ → ℕ → ℤ
shr_z (pos n) k = pos (n / 2 ^ k)
shr_z (negsuc n) k = negsuc (n / 2 ^ k)

-- Conversion back to an unsigned type.
abbrev pub wrap32 : ℤ → ℕ
wrap32 (pos n) = n % 2 ^ 32
wrap32 (negsuc n) = 2 ^ 32 - 1 - n % 2 ^ 32

abbrev pub wrap64 : ℤ → ℕ
wrap64 (pos n) = n % 2 ^ 64
wrap64 (negsuc n) = 2 ^ 64 - 1 - n % 2 ^ 64
