-- ===== src/Jit/Encode/Branch.antt =====
-- libebpf/src/jit_thumb2.h: the branches.
use rapid_patch_runtime_ae.Common.{ℕ, ◌-◌, ◌^◌, bit_xor, u16}
use rapid_patch_runtime_ae.Jit.CInt.{◌∣◌, ◌&◌, ◌<<◌, ◌>>◌, flag, is_negative}

unfoldable pub b_t1 : ℕ → ℕ → ℕ
b_t1 off_imm9 cond = let imm8 = u16 (off_imm9 >> 1 & 0x00ff) in u16 (0xd000 ∣ cond << 8 ∣ imm8)

unfoldable pub b_t2 : ℕ → ℕ
b_t2 off_imm12 = let imm11 = u16 (off_imm12 >> 1 & 0x7ff) in u16 (0xe000 ∣ imm11)

unfoldable pub blx_reg_t1 : ℕ → ℕ
blx_reg_t1 rm = u16 (0x4780 ∣ rm << 3)

unfoldable pub bw_t3 : ℕ → ℕ → ℕ
bw_t3 off_imm20 cond =
    let s = flag (is_negative off_imm20) in
    let imm11 = off_imm20 >> 1 & 0x7ff in
    let imm6 = off_imm20 >> 12 & 0x3f in
    let j1 = off_imm20 >> 18 & 0x1 in
    let j2 = off_imm20 >> 19 & 0x1 in
    0xf0008000 ∣ s << 26 ∣ cond << 22 ∣ imm6 << 16 ∣ j1 << 13 ∣ j2 << 11 ∣ imm11

unfoldable pub bw_t4 : ℕ → ℕ
bw_t4 off_imm23 =
    let s = flag (is_negative off_imm23) in
    let imm11 = off_imm23 >> 1 & 0x7ff in
    let imm10 = off_imm23 >> 12 & 0x3ff in
    let i1 = off_imm23 >> 18 & 0x1 in
    let i2 = off_imm23 >> 19 & 0x1 in
    let j1 = bit_xor (2 ^ 32 - 1 - i1) s & 0x1 in
    let j2 = bit_xor (2 ^ 32 - 1 - i2) s & 0x1 in
    0xf0008000 ∣ s << 26 ∣ imm10 << 16 ∣ j1 << 13 ∣ j2 << 11 ∣ imm11
