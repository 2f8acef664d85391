-- ===== src/Jit/CInt.antt =====
-- C's integer operators as libebpf/src/jit_thumb2.h uses them. An `s8`, `s16` or `s32` is its bit
-- pattern after promotion to 32 bits, so that register -4 is 2 ^ 32 - 4.
use rapid_patch_runtime_ae.Common.{
  ℕ, ◌+◌, ◌-◌, ◌*◌, ◌/◌, ◌^◌, Bool, true, false, bit_or, bit_and, u16, u32, ltb, leb, if◌then◌else◌,
}

infixl 20 ◌∣◌
infixl 25 ◌&◌
infixl 40 ◌<<◌ ◌>>◌
abbrev pub ◌∣◌ : ℕ → ℕ → ℕ
a ∣ b = bit_or a b

abbrev pub ◌&◌ : ℕ → ℕ → ℕ
a & b = bit_and a b

abbrev pub ◌<<◌ : ℕ → ℕ → ℕ
a << k = u32 (a * 2 ^ k)

-- Without the sign's copies, which the source masks off wherever the number may be negative.
abbrev pub ◌>>◌ : ℕ → ℕ → ℕ
a >> k = a / 2 ^ k

abbrev pub neg : ℕ → ℕ
neg a = u32 (2 ^ 32 - a)

abbrev pub is_negative : ℕ → Bool
is_negative a = leb (2 ^ 31) a

-- `a < b` on `int`.
abbrev pub s_lt : ℕ → ℕ → Bool
s_lt a b = ltb (u32 (a + 2 ^ 31)) (u32 (b + 2 ^ 31))

abbrev pub s_le : ℕ → ℕ → Bool
s_le a b = leb (u32 (a + 2 ^ 31)) (u32 (b + 2 ^ 31))

-- `a > 0 ? a : -a`.
abbrev pub magnitude : ℕ → ℕ
magnitude a = if s_lt 0 a then a else neg a

-- A condition that is used as a number.
abbrev pub flag : Bool → ℕ
flag true = 1
flag false = 0

-- The conversion of a number to `s16`, promoted again.
abbrev pub s16 : ℕ → ℕ
s16 a = if ltb (u16 a) (2 ^ 15) then u16 a else u16 a + (2 ^ 32 - 2 ^ 16)
