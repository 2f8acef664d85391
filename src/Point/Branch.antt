-- ===== src/Point/Branch.antt =====
-- The branch instructions of hotpatch/src/cortex-m4_fbp.c, in the encoding T4 of the ARMv7-M manual.
use rapid_patch_runtime_ae.Common.{
  ℕ, zero, suc, ◌+◌, ◌-◌, ◌*◌, ◌/◌, ◌%◌, ◌^◌, ◌≤◌, ◌<◌, ◌≡◌, refl, ap, arith, Option, some, none,
  ◌&&◌, ◌⊎◌, inl, inr, ltb, ◌==◌, if◌then◌else◌, u16, u32, bit_and, bit_or, bit_xor,
}
use rapid_patch_runtime_ae.Common.Bits.{bit_and_mask, bit_or_fields}
use rapid_patch_runtime_ae.Point.Address.{even, even_as_quotient, little_endian_16_bit}

-- The distance from the program counter, which is read four bytes ahead.
unfoldable pub branch_offset : ℕ → ℕ → ℕ
branch_offset from target = u32 (even target + 2 ^ 33 - even from - 4)

-- `0x01 & ((~i) ^ s)` for bits `i` and `s`, which are `int` after promotion.
unfoldable pub j_bit : ℕ → ℕ → ℕ
j_bit i s = bit_and 1 (bit_xor (2 ^ 32 - 1 - i) s)

unfoldable pub calc_branch_instr : ℕ → ℕ → ℕ
unfolding branch_offset j_bit
calc_branch_instr instr_addr target_addr =
    let offset = branch_offset instr_addr target_addr in
    let offset_10_upper = bit_and (offset / 2 ^ 12) 0x03ff in
    let offset_11_lower = bit_and (offset / 2) 0x07ff in
    let s = bit_and (offset / 2 ^ 24) 0x01 in
    let i1 = bit_and (offset / 2 ^ 23) 0x01 in
    let i2 = bit_and (offset / 2 ^ 22) 0x01 in
    let upper_bl_instr = u16 (bit_or (bit_or (0x1e * 2 ^ 11) (s * 2 ^ 10)) offset_10_upper) in
    let lower_bl_instr = u16 (
      bit_or
        (bit_or (bit_or (bit_or (0x02 * 2 ^ 14) (j_bit i1 s * 2 ^ 13)) (0x01 * 2 ^ 12))
          (j_bit i2 s * 2 ^ 11))
        offset_11_lower) in
    bit_or (upper_bl_instr * 2 ^ 16) lower_bl_instr

-- `calc_branch_w_link_instr`.
unfoldable pub calc_branch_w_link_instr : ℕ → ℕ → ℕ
unfolding calc_branch_instr
calc_branch_w_link_instr inst_addr target_addr =
    bit_or (calc_branch_instr inst_addr target_addr) 0x00004000

-- `my_gen_bw`: the sign is that of the offset as an `int`; `>>` on it keeps the sign, which the
-- masks cut off.
unfoldable pub my_gen_bw : ℕ → ℕ → ℕ
unfolding branch_offset j_bit
my_gen_bw from_inst target_addr =
    let offset = branch_offset from_inst target_addr in
    let imm10 = bit_and (offset / 2 ^ 12) 0x03ff in
    let imm11 = bit_and (offset / 2) 0x07ff in
    let s = if ltb offset (2 ^ 31) then 0 else 1 in
    let i1 = bit_and (offset / 2 ^ 23) 0x01 in
    let i2 = bit_and (offset / 2 ^ 22) 0x01 in
    little_endian_16_bit (
      bit_or
        (bit_or
          (bit_or (bit_or (bit_or 0xf0009000 (s * 2 ^ 26)) (imm10 * 2 ^ 16)) (j_bit i1 s * 2 ^ 13))
          (j_bit i2 s * 2 ^ 11))
        imm11)

-- The target of a branch as the processor decodes it: `I1 = NOT(J1 EOR S)`, likewise `I2`, and the
-- offset is the sign extension of `S:I1:I2:imm10:imm11:0`.
abbrev pub same_bit : ℕ → ℕ → ℕ
same_bit a b = if a == b then 1 else 0

abbrev pub fields_t4 : ℕ → ℕ → ℕ
fields_t4 from inst =
    let s = inst / 2 ^ 26 % 2 in
    let i1 = same_bit (inst / 2 ^ 13 % 2) s in
    let i2 = same_bit (inst / 2 ^ 11 % 2) s in
    let imm = i1 * 2 ^ 23 + i2 * 2 ^ 22 + inst / 2 ^ 16 % 2 ^ 10 * 2 ^ 12 + inst % 2 ^ 11 * 2 in
    u32 (even from + 4 + s * (2 ^ 32 - 2 ^ 24) + imm)

-- The target of an instruction, if its fixed bits are those of an unconditional branch: `11110` and,
-- in the lower half-word, `10.1`.
abbrev pub target_of : ℕ → ℕ → Option ℕ
target_of from inst =
    if (inst / 2 ^ 27 == 30 && inst / 2 ^ 14 % 2 ^ 2 == 2) && inst / 2 ^ 12 % 2 == 1
    then some (fields_t4 from inst)
    else none

j_bit_same : (i s : ℕ) → i < 2 → s < 2 → j_bit i s ≡ same_bit i s
unfolding j_bit
j_bit_same zero zero hi hs = refl
j_bit_same zero (suc zero) hi hs = refl
j_bit_same (suc zero) zero hi hs = refl
j_bit_same (suc zero) (suc zero) hi hs = refl
j_bit_same zero (suc (suc s)) hi hs = absurd (omega arith)
j_bit_same (suc zero) (suc (suc s)) hi hs = absurd (omega arith)
j_bit_same (suc (suc i)) s hi hs = absurd (omega arith)

-- A jump within 16 megabytes.
abbrev pub InReach : ℕ → ℕ → Type 0
InReach from target =
    (branch_offset from target < 2 ^ 24) ⊎ (2 ^ 32 ≤ branch_offset from target + 2 ^ 24)

-- The fields of the two half-words, by the place where each begins.
upper_fields :
    (s imm : ℕ)
    → s < 2
    → imm < 2 ^ 10
    → bit_or (bit_or (0x1e * 2 ^ 11) (s * 2 ^ 10)) imm ≡ (60 + s) * 2 ^ 10 + imm
upper_fields s imm hs hi =
    ground (arith, bit_or_fields 11 30 (s * 2 ^ 10) (omega arith), bit_or_fields 10 (60 + s) imm hi)

lower_fields :
    (j k imm : ℕ)
    → j < 2
    → k < 2
    → imm < 2 ^ 11
    → bit_or
        (bit_or (bit_or (bit_or (0x02 * 2 ^ 14) (j * 2 ^ 13)) (0x01 * 2 ^ 12)) (k * 2 ^ 11))
        imm
      ≡ 2 ^ 15 + j * 2 ^ 13 + 2 ^ 12 + k * 2 ^ 11 + imm
lower_fields j k imm hj hk hi = ground (
  arith,
  bit_or_fields 14 2 (j * 2 ^ 13) (omega arith),
  bit_or_fields 13 (4 + j) (2 ^ 12) (omega arith),
  bit_or_fields 12 (9 + 2 * j) (k * 2 ^ 11) (omega arith),
  bit_or_fields 11 (18 + 4 * j + k) imm hi,
)

same_bit-lt : (a b : ℕ) → same_bit a b < 2
same_bit-lt a b = ground arith

abbrev bit_at : ℕ → ℕ → ℕ
bit_at o k = o / 2 ^ k % 2

calc_branch_instr_as_sum :
    (from target : ℕ)
    → let o = branch_offset from target in
      calc_branch_instr from target
      ≡ ((60 + bit_at o 24) * 2 ^ 10 + o / 2 ^ 12 % 2 ^ 10) * 2 ^ 16
        + (2 ^ 15
            + same_bit (bit_at o 23) (bit_at o 24) * 2 ^ 13
            + 2 ^ 12
            + same_bit (bit_at o 22) (bit_at o 24) * 2 ^ 11
            + o / 2 % 2 ^ 11)
unfolding calc_branch_instr
calc_branch_instr_as_sum from target =
    let o = branch_offset from target in
    let s = bit_at o 24 in
    let j = same_bit (bit_at o 23) s in
    let k = same_bit (bit_at o 22) s in
    let hj = same_bit-lt (bit_at o 23) s in
    let hk = same_bit-lt (bit_at o 22) s in
    rw
      (
        bit_and_mask 10 (o / 2 ^ 12),
        bit_and_mask 11 (o / 2),
        bit_and_mask 1 (o / 2 ^ 24),
        bit_and_mask 1 (o / 2 ^ 23),
        bit_and_mask 1 (o / 2 ^ 22),
        j_bit_same (bit_at o 23) s (omega arith) (omega arith),
        j_bit_same (bit_at o 22) s (omega arith) (omega arith),
        upper_fields s (o / 2 ^ 12 % 2 ^ 10) (omega arith) (omega arith),
        lower_fields j k (o / 2 % 2 ^ 11) hj hk (omega arith),
      )
      (let up = (60 + s) * 2 ^ 10 + o / 2 ^ 12 % 2 ^ 10 in
        let lo = 2 ^ 15 + j * 2 ^ 13 + 2 ^ 12 + k * 2 ^ 11 + o / 2 % 2 ^ 11 in
        ground (arith, hj, hk, bit_or_fields 16 up lo (omega (arith, hj, hk))))

same_bit_back : (i s : ℕ) → i < 2 → s < 2 → same_bit (same_bit i s) s ≡ i
same_bit_back i s hi hs = ground arith

-- The offset that the processor reads off the fields.
fields_back :
    (o j k inst : ℕ)
    → j < 2
    → k < 2
    → inst
      ≡ ((60 + bit_at o 24) * 2 ^ 10 + o / 2 ^ 12 % 2 ^ 10) * 2 ^ 16
        + (2 ^ 15 + j * 2 ^ 13 + 2 ^ 12 + k * 2 ^ 11 + o / 2 % 2 ^ 11)
    → (inst / 2 ^ 26 % 2 ≡ bit_at o 24)
      × (inst / 2 ^ 13 % 2 ≡ j)
      × (inst / 2 ^ 11 % 2 ≡ k)
      × (inst / 2 ^ 16 % 2 ^ 10 ≡ o / 2 ^ 12 % 2 ^ 10)
      × (inst % 2 ^ 11 ≡ o / 2 % 2 ^ 11)
fields_back o j k inst hj hk e = (omega arith, omega arith, omega arith, omega arith, omega arith)

immediate :
    (o : ℕ)
    → o % 2 ≡ 0
    → o < 2 ^ 32
    → (o < 2 ^ 24) ⊎ (2 ^ 32 ≤ o + 2 ^ 24)
    → bit_at o 24 * (2 ^ 32 - 2 ^ 24)
        + (bit_at o 23 * 2 ^ 23
            + bit_at o 22 * 2 ^ 22
            + o / 2 ^ 12 % 2 ^ 10 * 2 ^ 12
            + o / 2 % 2 ^ 11 * 2)
      ≡ o
immediate o h b (inl below) = omega arith
immediate o h b (inr above) = omega arith

offset_back :
    (from target : ℕ)
    → from < 2 ^ 32
    → target < 2 ^ 32
    → InReach from target
    → let o = branch_offset from target in
      u32 (
        even from
        + 4
        + bit_at o 24 * (2 ^ 32 - 2 ^ 24)
        + (bit_at o 23 * 2 ^ 23
            + bit_at o 22 * 2 ^ 22
            + o / 2 ^ 12 % 2 ^ 10 * 2 ^ 12
            + o / 2 % 2 ^ 11 * 2))
      ≡ even target
unfolding branch_offset
offset_back from target hf ht near =
    let f = even_as_quotient from hf in
    let t = even_as_quotient target ht in
    let o = branch_offset from target in
    let step : o ≡ u32 (even target + 2 ^ 33 - even from - 4) = refl in
    let whole = immediate o (omega (arith, f, t, step)) (omega (arith, step)) near in
    omega (arith, f, t, step, whole)

calc_branch_instr-fields :
    (from target : ℕ)
    → from < 2 ^ 32
    → target < 2 ^ 32
    → InReach from target
    → fields_t4 from (calc_branch_instr from target) ≡ even target
calc_branch_instr-fields from target hf ht near =
    let o = branch_offset from target in
    let s = bit_at o 24 in
    let j = same_bit (bit_at o 23) s in
    let k = same_bit (bit_at o 22) s in
    let (es, ej, ek, e10, e11) =
      fields_back o j k (calc_branch_instr from target) (same_bit-lt (bit_at o 23) s)
        (same_bit-lt (bit_at o 22) s) (calc_branch_instr_as_sum from target) in
    rw
      (
        es,
        ej,
        ek,
        e10,
        e11,
        same_bit_back (bit_at o 23) s (omega arith) (omega arith),
        same_bit_back (bit_at o 22) s (omega arith) (omega arith),
      )
      (offset_back from target hf ht near)

branch_kind :
    (s x j k y inst : ℕ)
    → s < 2
    → x < 2 ^ 10
    → j < 2
    → k < 2
    → y < 2 ^ 11
    → inst ≡ ((60 + s) * 2 ^ 10 + x) * 2 ^ 16 + (2 ^ 15 + j * 2 ^ 13 + 2 ^ 12 + k * 2 ^ 11 + y)
    → (inst / 2 ^ 27 ≡ 30) × (inst / 2 ^ 14 % 2 ^ 2 ≡ 2) × (inst / 2 ^ 12 % 2 ≡ 1)
branch_kind s x j k y inst hs hx hj hk hy e = (omega arith, omega arith, omega arith)

-- The generated instruction, standing at the instruction's address, has the fixed bits of an
-- unconditional branch in the encoding T4, and its fields lead to the wanted target with its lowest
-- bit cleared, if the target is within 16 megabytes.
pub calc_branch_instr_target :
    (from target : ℕ)
    → from < 2 ^ 32
    → target < 2 ^ 32
    → InReach from target
    → target_of from (calc_branch_instr from target) ≡ some (even target)
calc_branch_instr_target from target hf ht near =
    let o = branch_offset from target in
    let s = bit_at o 24 in
    let (opcode, fixed, unconditional) =
      branch_kind s (o / 2 ^ 12 % 2 ^ 10) (same_bit (bit_at o 23) s) (same_bit (bit_at o 22) s)
        (o / 2 % 2 ^ 11) (calc_branch_instr from target) (omega arith) (omega arith)
        (same_bit-lt (bit_at o 23) s) (same_bit-lt (bit_at o 22) s) (omega arith)
        (calc_branch_instr_as_sum from target) in
    rw (opcode, fixed, unconditional) (ap some (calc_branch_instr-fields from target hf ht near))
