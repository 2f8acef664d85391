-- ===== src/Point/Address.antt =====
-- Instruction addresses: hotpatch/src/utils.c, as built for the Cortex-M4, and `calc_bpkt_addr` of
-- hotpatch/src/cortex-m4_fbp.c.
use rapid_patch_runtime_ae.Common.{
  ℕ, ◌+◌, ◌-◌, ◌*◌, ◌/◌, ◌%◌, ◌^◌, ◌<◌, ◌≡◌, arith, List, [], ◌∷◌, Option, none, some, leb, ltb,
  ◌==◌, if◌then◌else◌, u32, bit_and, bit_or,
}
use rapid_patch_runtime_ae.Common.Bits.{bit_and_mask, bit_and_shift, bit_or_fields, bit_or_comm}

-- `a & ~0x1` and `a & ~0x3` on 32 bits.
abbrev pub even : ℕ → ℕ
even a = bit_and a 0xfffffffe

abbrev pub word_aligned : ℕ → ℕ
word_aligned a = bit_and a 0xfffffffc

-- `little_endian_16_bit`.
unfoldable pub little_endian_16_bit : ℕ → ℕ
little_endian_16_bit v =
    u32 (bit_or (bit_and v 0xffff0000 / 2 ^ 16) (bit_and v 0x0000ffff * 2 ^ 16))

-- `calc_bpkt_pc` and `clac_prev_inst_addr`; `half a` is the half-word of the program at `a`.
module _ (half : ℕ → ℕ) where
  unfoldable pub calc_bpkt_pc : ℕ → ℕ
  calc_bpkt_pc a = if leb 0xe800 (half (even a)) then u32 (even a + 4) else u32 (even a + 2)

  unfoldable pub clac_prev_inst_addr : ℕ → ℕ
  clac_prev_inst_addr a =
      let before = u32 (even a + 2 ^ 32 - 4) in
      if leb 0xe800 (half before) then before else u32 (before + 2)

-- `byte2int`: the number with the given bytes, the highest first, in an `int`, whose overflow is
-- undefined.
unfoldable pub byte2int_from : ℕ → List ℕ → Option ℕ
byte2int_from val [] = some val
byte2int_from val (b ∷ bs) =
    let rest = byte2int_from (val * 256 + b) bs in
    if ltb (val * 256 + b) (2 ^ 31) then rest else none

unfoldable pub byte2int : List ℕ → Option ℕ
unfolding byte2int_from
byte2int bs = byte2int_from 0 bs

-- The comparator of an instruction: its word address, the enable bit and which half is replaced.
unfoldable pub comparator : ℕ → ℕ
comparator a =
    let replace = if bit_and a 0x2 == 0 then 1 else 2 in
    bit_or (bit_or (word_aligned a) 0x1) (replace * 2 ^ 30)

-- `calc_bpkt_addr`.
unfoldable pub calc_bpkt_addr : ℕ → ℕ
unfolding comparator
calc_bpkt_addr a =
    let fp_comp = comparator a in
    let final_addr = bit_and fp_comp 0x1ffffffc in
    if fp_comp / 2 ^ 30 == 2 then bit_or final_addr 0x2 else final_addr

pub word_aligned_as_quotient : (a : ℕ) → a < 2 ^ 32 → word_aligned a ≡ a / 4 * 4
word_aligned_as_quotient a h =
    omega (arith, bit_and_shift 2 (2 ^ 30 - 1) a, bit_and_mask 30 (a / 4))

pub even_as_quotient : (a : ℕ) → a < 2 ^ 32 → even a ≡ a / 2 * 2
even_as_quotient a h = omega (arith, bit_and_shift 1 (2 ^ 31 - 1) a, bit_and_mask 31 (a / 2))

half_bit : (a : ℕ) → bit_and a 0x2 ≡ a / 2 % 2 * 2
half_bit a = omega (arith, bit_and_shift 1 1 a, bit_and_mask 1 (a / 2))

-- The fields of a comparator, for an address in the code region.
comparator_as_sum : (a : ℕ) → a < 2 ^ 29 → comparator a ≡ (1 + a / 2 % 2) * 2 ^ 30 + (a / 4 * 4 + 1)
unfolding comparator
comparator_as_sum a h = ground (
  arith,
  half_bit a,
  word_aligned_as_quotient a (omega arith),
  bit_or_fields 2 (a / 4) 1 (omega arith),
  bit_or_comm (bit_or (word_aligned a) 1) ((1 + a / 2 % 2) * 2 ^ 30),
  bit_or_fields 30 (1 + a / 2 % 2) (a / 4 * 4 + 1) (omega arith),
)

-- For an instruction in the code region below 0x20000000, the address that is read back from its
-- comparator is the instruction's own, with the lowest bit cleared.
pub calc_bpkt_addr-even : (a : ℕ) → a < 2 ^ 29 → calc_bpkt_addr a ≡ even a
unfolding calc_bpkt_addr
calc_bpkt_addr-even a h =
    let fields = comparator_as_sum a h in
    let q = (1 + a / 2 % 2) * 2 ^ 28 + a / 4 in
    let masked : bit_and (comparator a) 0x1ffffffc ≡ a / 4 * 4 = omega (
      arith,
      fields,
      bit_and_shift 2 (2 ^ 27 - 1) (comparator a),
      bit_and_mask 27 (comparator a / 4),
    ) in
    rw masked (
      ground
        (arith, fields, even_as_quotient a (omega arith), bit_or_fields 2 (a / 4) 2 (omega arith)))

pub little_endian_16_bit_as_sum :
    (v : ℕ) → v < 2 ^ 32 → little_endian_16_bit v ≡ v % 2 ^ 16 * 2 ^ 16 + v / 2 ^ 16
unfolding little_endian_16_bit
little_endian_16_bit_as_sum v h =
    let low = v % 2 ^ 16 in
    let high = v / 2 ^ 16 in
    ground (
      arith,
      bit_and_shift 16 (2 ^ 16 - 1) v,
      bit_and_mask 16 high,
      bit_and_mask 16 v,
      bit_or_comm high (low * 2 ^ 16),
      bit_or_fields 16 low high (omega arith),
    )
