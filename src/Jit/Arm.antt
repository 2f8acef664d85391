-- ===== src/Jit/Arm.antt =====
-- Instructions of a Cortex-M4 as the ARMv7-M manual describes them: the ones that the code of
-- libebpf/src/jit_thumb2.c for constants and for 64-bit arithmetic is made of. This is the
-- description that the emitted code is held against.
use rapid_patch_runtime_ae.Common.{
  ℕ, ◌+◌, ◌-◌, ◌*◌, ◌/◌, ◌%◌, ◌^◌, ◌<◌, ◌≡◌, ◌≢◌, refl, arith, Bool, true, false, ◌&&◌, ◌==◌, leb,
  if◌then◌else◌, Option, none, some, [], ◌∷◌, u32,
}
use rapid_patch_runtime_ae.Patch.Context.{◌>>=◌}
use rapid_patch_runtime_ae.Jit.Emit.Registers.{Code}

-- The registers and the carry flag.
pub record Arm : Type 0 where
  pub regs : ℕ → ℕ
  pub carry : ℕ

unfoldable pub with_reg : Arm → ℕ → ℕ → Arm
with_reg s rd v = record s { regs = λ r. if r == rd then v else s.regs r }

-- A half-word that begins a longer instruction.
abbrev pub is_wide : ℕ → Bool
is_wide h = leb 0xe800 h

-- `MOVS (immediate)` T1.
unfoldable pub exec16 : ℕ → Arm → Option Arm
exec16 h s = if h / 2 ^ 11 == 4 then some (with_reg s (h / 2 ^ 8 % 8) (h % 2 ^ 8)) else none

-- The constant of `MOVW` and `MOVT`, `imm4:i:imm3:imm8`.
abbrev pub half_constant : ℕ → ℕ
half_constant w =
    w / 2 ^ 16 % 2 ^ 4 * 2 ^ 12 + w / 2 ^ 26 % 2 * 2 ^ 11 + w / 2 ^ 12 % 2 ^ 3 * 2 ^ 8 + w % 2 ^ 8

-- `AddWithCarry` of the manual: the sum and the carry out of it.
abbrev pub add_with_carry : Arm → ℕ → ℕ → ℕ → ℕ → Bool → Arm
add_with_carry s rd a b c sets =
    let t = with_reg s rd (u32 (a + b + c)) in
    if sets then record t { carry = (a + b + c) / 2 ^ 32 } else t

-- `MOVW` T3, `MOVT` T1, and `ADC`, `ADD`, `SBC` and `SUB (register)` without a shift: a subtraction
-- adds the complement.
unfoldable pub exec32 : ℕ → Arm → Option Arm
exec32 w s =
    let rd = w / 2 ^ 8 % 2 ^ 4 in
    let kind = w / 2 ^ 20 in
    let n = s.regs (w / 2 ^ 16 % 2 ^ 4) in
    let m = s.regs (w % 2 ^ 4) in
    let unshifted = w / 2 ^ 12 % 2 ^ 4 == 0 && w / 2 ^ 4 % 2 ^ 4 == 0 in
    let inverse = 2 ^ 32 - 1 - m in
    if w / 2 ^ 27 == 30 && w / 2 ^ 20 % 2 ^ 6 == 0x24 && w / 2 ^ 15 % 2 == 0
    then some (with_reg s rd (half_constant w))
    else if w / 2 ^ 27 == 30 && w / 2 ^ 20 % 2 ^ 6 == 0x2c && w / 2 ^ 15 % 2 == 0
    then some (with_reg s rd (half_constant w * 2 ^ 16 + s.regs rd % 2 ^ 16))
    else if kind == 0xeb1 && unshifted
    then some (add_with_carry s rd n m 0 true)
    else if kind == 0xeb4 && unshifted
    then some (add_with_carry s rd n m s.carry false)
    else if kind == 0xebb && unshifted
    then some (add_with_carry s rd n inverse 1 true)
    else if kind == 0xeb6 && unshifted
    then some (add_with_carry s rd n inverse s.carry false)
    else none

-- The instructions one after the other; `none` where one is not among those described.
unfoldable pub run : Code → Arm → Option Arm
run [] s = some s
run (h ∷ []) s = if is_wide h then none else exec16 h s
run (h ∷ l ∷ rest) s =
    if is_wide h
    then exec32 (h * 2 ^ 16 + l) s >>= (λ t. run rest t)
    else exec16 h s >>= (λ t. run (l ∷ rest) t)

pub with_reg-same : (s : Arm) (rd v : ℕ) → (with_reg s rd v).regs rd ≡ v
unfolding with_reg
with_reg-same s rd v = ground arith

pub with_reg-other : (s : Arm) (rd v r : ℕ) → r ≢ rd → (with_reg s rd v).regs r ≡ s.regs r
unfolding with_reg
with_reg-other s rd v r n = ground arith

pub run-wide :
    (w : ℕ) (rest : Code) (s t : Arm)
    → w < 2 ^ 32
    → leb 0xe800 (w / 2 ^ 16) ≡ true
    → exec32 w s ≡ some t
    → run (w / 2 ^ 16 % 2 ^ 16 ∷ w % 2 ^ 16 ∷ rest) s ≡ run rest t
unfolding run
run-wide w rest s t small wide e =
    let upper : w / 2 ^ 16 % 2 ^ 16 ≡ w / 2 ^ 16 = omega arith in
    let whole : w / 2 ^ 16 * 2 ^ 16 + w % 2 ^ 16 ≡ w = omega arith in
    rw (run, upper, wide, whole, e) refl

pub run-narrow :
    (h : ℕ) (rest : Code) (s t : Arm)
    → leb 0xe800 h ≡ false
    → exec16 h s ≡ some t
    → run (h ∷ rest) s ≡ run rest t
unfolding run
run-narrow h [] s t narrow e = rw (run, narrow, e) refl
run-narrow h (l ∷ rest) s t narrow e = rw (run, narrow, e) refl
