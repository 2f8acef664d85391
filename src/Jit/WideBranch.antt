-- ===== src/Jit/WideBranch.antt =====
-- The four-byte conditional branch of libebpf/src/jit_thumb2.h leads where it should.
use rapid_patch_runtime_ae.Common.{
  ℕ, ◌+◌, ◌*◌, ◌/◌, ◌%◌, ◌^◌, ◌<◌, ◌≡◌, refl, ap, arith, some, ltb, inl, inr, Bool, true, false,
  u32, bit_or,
}
use rapid_patch_runtime_ae.Common.Bits.{bit_and_mask, bit_or_fields, bit_or-above}
use rapid_patch_runtime_ae.Jit.CInt.{flag, is_negative}
use rapid_patch_runtime_ae.Jit.Encode.Branch.{bw_t3}
use rapid_patch_runtime_ae.Jit.Targets.{extended, fields_t3, target_t3, Reaches}

-- The upper half-word, over bit 15 of the encoding.
t3_upper :
    (s cond imm6 : ℕ)
    → s < 2
    → cond < 14
    → imm6 < 2 ^ 6
    → bit_or (bit_or (bit_or 0xf0008000 (s * 2 ^ 26)) (cond * 2 ^ 22)) (imm6 * 2 ^ 16)
      ≡ (((60 + s) * 16 + cond) * 2 ^ 6 + imm6) * 2 ^ 16 + 2 ^ 15
t3_upper s cond imm6 hs hc hi =
    let sign = bit_or-above 16 0xf000 (s * 2 ^ 10) (2 ^ 15) (omega arith) in
    let condition = bit_or-above 16 ((60 + s) * 2 ^ 10) (cond * 2 ^ 6) (2 ^ 15) (omega arith) in
    let offset = bit_or-above 16 (((60 + s) * 16 + cond) * 2 ^ 6) imm6 (2 ^ 15) (omega arith) in
    ground (
      arith,
      sign,
      condition,
      offset,
      bit_or_fields 12 15 (s * 2 ^ 10) (omega arith),
      bit_or_fields 10 (60 + s) (cond * 2 ^ 6) (omega arith),
      bit_or_fields 6 ((60 + s) * 16 + cond) imm6 hi,
    )

t3_lower :
    (upper j1 j2 imm11 : ℕ)
    → j1 < 2
    → j2 < 2
    → imm11 < 2 ^ 11
    → bit_or (bit_or (bit_or (upper * 2 ^ 16 + 2 ^ 15) (j1 * 2 ^ 13)) (j2 * 2 ^ 11)) imm11
      ≡ upper * 2 ^ 16 + 2 ^ 15 + j1 * 2 ^ 13 + j2 * 2 ^ 11 + imm11
t3_lower upper j1 j2 imm11 h1 h2 h3 = ground (
  arith,
  bit_or_fields 15 (upper * 2 + 1) (j1 * 2 ^ 13) (omega arith),
  bit_or_fields 13 ((upper * 2 + 1) * 4 + j1) (j2 * 2 ^ 11) (omega arith),
  bit_or_fields 11 (((upper * 2 + 1) * 4 + j1) * 4 + j2) imm11 h3,
)

flag-lt : (b : Bool) → flag b < 2
flag-lt true = omega arith
flag-lt false = omega arith

unfoldable pub upper_of : ℕ → ℕ → ℕ
upper_of d cond = ((60 + flag (is_negative d)) * 16 + cond) * 2 ^ 6 + d / 2 ^ 12 % 2 ^ 6

pub bw_t3_as_sum :
    (d cond : ℕ)
    → cond < 14
    → bw_t3 d cond
      ≡ upper_of d cond * 2 ^ 16
        + 2 ^ 15
        + d / 2 ^ 18 % 2 * 2 ^ 13
        + d / 2 ^ 19 % 2 * 2 ^ 11
        + d / 2 % 2 ^ 11
unfolding bw_t3 upper_of
bw_t3_as_sum d cond h =
    let s = flag (is_negative d) in
    let imm6 = d / 2 ^ 12 % 2 ^ 6 in
    let hs : s < 2 = flag-lt (is_negative d) in
    let upper = t3_upper s cond imm6 hs h (omega arith) in
    let lower =
      t3_lower (((60 + s) * 16 + cond) * 2 ^ 6 + imm6) (d / 2 ^ 18 % 2) (d / 2 ^ 19 % 2)
        (d / 2 % 2 ^ 11) (omega arith) (omega arith) (omega arith) in
    let small : s * 2 ^ 26 % 2 ^ 32 ≡ s * 2 ^ 26 = omega (arith, hs) in
    let c : cond * 2 ^ 22 % 2 ^ 32 ≡ cond * 2 ^ 22 = omega arith in
    let a : imm6 * 2 ^ 16 % 2 ^ 32 ≡ imm6 * 2 ^ 16 = omega arith in
    let b : d / 2 ^ 18 % 2 * 2 ^ 13 % 2 ^ 32 ≡ d / 2 ^ 18 % 2 * 2 ^ 13 = omega arith in
    let e : d / 2 ^ 19 % 2 * 2 ^ 11 % 2 ^ 32 ≡ d / 2 ^ 19 % 2 * 2 ^ 11 = omega arith in
    rw
      (
        bit_and_mask 11 (d / 2),
        bit_and_mask 6 (d / 2 ^ 12),
        bit_and_mask 1 (d / 2 ^ 18),
        bit_and_mask 1 (d / 2 ^ 19),
        small,
        c,
        a,
        b,
        e,
        upper,
        lower,
      )
      refl

-- The distance that the processor reads off the fields.
bw_t3-fields :
    (d upper inst : ℕ)
    → inst
      ≡ upper * 2 ^ 16 + 2 ^ 15 + d / 2 ^ 18 % 2 * 2 ^ 13 + d / 2 ^ 19 % 2 * 2 ^ 11 + d / 2 % 2 ^ 11
    → (inst / 2 ^ 26 % 2 ≡ upper / 2 ^ 10 % 2)
      × (inst / 2 ^ 13 % 2 ≡ d / 2 ^ 18 % 2)
      × (inst / 2 ^ 11 % 2 ≡ d / 2 ^ 19 % 2)
      × (inst / 2 ^ 16 % 2 ^ 6 ≡ upper % 2 ^ 6)
      × (inst % 2 ^ 11 ≡ d / 2 % 2 ^ 11)
bw_t3-fields d upper inst e = (omega arith, omega arith, omega arith, omega arith, omega arith)

upper_of-fields :
    (d cond : ℕ)
    → cond < 14
    → (upper_of d cond / 2 ^ 10 % 2 ≡ flag (is_negative d))
      × (upper_of d cond % 2 ^ 6 ≡ d / 2 ^ 12 % 2 ^ 6)
unfolding upper_of
upper_of-fields d cond h = let s = flag-lt (is_negative d) in (omega (arith, s), omega (arith, s))

pub upper_of-lt : (d cond : ℕ) → cond < 14 → upper_of d cond < 2 ^ 16
unfolding upper_of
upper_of-lt d cond h = omega (arith, flag-lt (is_negative d))

abbrev low_bits : ℕ → ℕ
low_bits d =
    d / 2 ^ 19 % 2 * 2 ^ 18 + d / 2 ^ 18 % 2 * 2 ^ 17 + d / 2 ^ 12 % 2 ^ 6 * 2 ^ 11 + d / 2 % 2 ^ 11

immediate_t3 :
    (at d imm : ℕ)
    → Reaches 20 d
    → imm ≡ flag (is_negative d) * 2 ^ 19 + low_bits d
    → u32 (at + 4 + extended 20 imm) ≡ u32 (at + d + 4)
immediate_t3 at d imm (even, inl h) e =
    let positive : is_negative d ≡ false = ground arith in
    let whole : imm ≡ d / 2 = omega (arith, rw positive at e) in rw whole (ground arith)
immediate_t3 at d imm (even, inr h) e =
    let negative : is_negative d ≡ true = ground arith in
    let whole : imm ≡ d / 2 % 2 ^ 20 = omega (arith, rw negative at e) in rw whole (ground arith)

bw_t3-fields_t3 :
    (at d cond : ℕ) → cond < 14 → Reaches 20 d → fields_t3 at (bw_t3 d cond) ≡ u32 (at + d + 4)
bw_t3-fields_t3 at d cond c near =
    let (us, u6) = upper_of-fields d cond c in
    let (es, e1, e2, e6, e11) =
      bw_t3-fields d (upper_of d cond) (bw_t3 d cond) (bw_t3_as_sum d cond c) in
    rw (es, e1, e2, e6, e11, us, u6)
      (immediate_t3 at d
        (flag (is_negative d) * 2 ^ 19
          + d / 2 ^ 19 % 2 * 2 ^ 18
          + d / 2 ^ 18 % 2 * 2 ^ 17
          + d / 2 ^ 12 % 2 ^ 6 * 2 ^ 11
          + d / 2 % 2 ^ 11)
        near (omega arith))

-- The fixed bits and the condition.
bw_t3-kind :
    (s cond imm6 j1 j2 imm11 inst : ℕ)
    → s < 2
    → cond < 14
    → imm6 < 2 ^ 6
    → j1 < 2
    → j2 < 2
    → imm11 < 2 ^ 11
    → inst
      ≡ (((60 + s) * 16 + cond) * 2 ^ 6 + imm6) * 2 ^ 16
        + 2 ^ 15
        + j1 * 2 ^ 13
        + j2 * 2 ^ 11
        + imm11
    → (inst / 2 ^ 27 ≡ 30)
      × (inst / 2 ^ 14 % 2 ^ 2 ≡ 2)
      × (inst / 2 ^ 12 % 2 ≡ 0)
      × (inst / 2 ^ 22 % 2 ^ 4 ≡ cond)
bw_t3-kind s cond imm6 j1 j2 imm11 inst hs hc h6 h1 h2 h11 e =
    (omega arith, omega arith, omega arith, omega arith)

-- `bw_t3` makes, for every condition below 14 and an even distance of less than a megabyte either
-- way, an instruction that is a conditional branch in the encoding T3, has that condition, and leads
-- by that distance from the place four bytes on.
pub bw_t3-target :
    (at d cond : ℕ)
    → cond < 14
    → Reaches 20 d
    → target_t3 at (bw_t3 d cond) ≡ some (cond, u32 (at + d + 4))
unfolding upper_of
bw_t3-target at d cond c near =
    let (opcode, fixed, conditional, chosen) =
      bw_t3-kind (flag (is_negative d)) cond (d / 2 ^ 12 % 2 ^ 6) (d / 2 ^ 18 % 2) (d / 2 ^ 19 % 2)
        (d / 2 % 2 ^ 11) (bw_t3 d cond) (flag-lt (is_negative d)) c (omega arith) (omega arith)
        (omega arith) (omega arith) (bw_t3_as_sum d cond c) in
    let below : ltb cond 14 ≡ true = ground arith in
    rw (opcode, fixed, conditional, chosen, below)
      (ap (λ (t : ℕ). some (cond, t)) (bw_t3-fields_t3 at d cond c near))
