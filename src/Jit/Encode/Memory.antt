-- ===== src/Jit/Encode/Memory.antt =====
-- libebpf/src/jit_thumb2.h: loads and stores. A pair `Rt[]` of registers has its high half at
-- index 0.
use rapid_patch_runtime_ae.Common.{ℕ, not, ◌==◌, u16}
use rapid_patch_runtime_ae.Jit.CInt.{◌∣◌, ◌&◌, ◌<<◌, ◌>>◌, flag, s_lt, s_le, magnitude}

pub record RegPair : Type 0 where
  pub hi : ℕ
  pub lo : ℕ

unfoldable pub ldrb_imm_t1 : ℕ → ℕ → ℕ → ℕ
ldrb_imm_t1 rt rn off_imm5 = u16 (0x7800 ∣ off_imm5 << 6 ∣ rn << 3 ∣ rt)

unfoldable pub ldrb_imm_t3 : ℕ → ℕ → ℕ → ℕ
ldrb_imm_t3 rt rn off_imm8 =
    let imm8 = magnitude off_imm8 in
    let flags = 0x8 ∣ 1 << 2 ∣ flag (s_le 0 off_imm8) << 1 ∣ 0 in
    0xf8100000 ∣ rn << 16 ∣ rt << 12 ∣ flags << 8 ∣ imm8

unfoldable pub ldr_imm_t4 : ℕ → ℕ → ℕ → ℕ
ldr_imm_t4 rt rn off_imm8 =
    let imm8 = magnitude off_imm8 in
    let p = flag (not (off_imm8 == 0)) in
    let u = flag (s_le 0 off_imm8) in
    let flags = p << 2 ∣ u << 1 ∣ 0 in 0xf8500800 ∣ rn << 16 ∣ rt << 12 ∣ flags << 8 ∣ imm8

unfoldable pub ldrd_imm_t1 : RegPair → ℕ → ℕ → ℕ
ldrd_imm_t1 rt rn off_imm8 =
    let p = flag (not (off_imm8 == 0)) in
    let u = flag (s_lt 0 off_imm8) in
    let imm8 = magnitude off_imm8 >> 2 & 0xff in
    let flags = 0x2 ∣ p << 3 ∣ u << 2 ∣ 0 in
    0xe8500000 ∣ flags << 21 ∣ rn << 16 ∣ rt.lo << 12 ∣ rt.hi << 8 ∣ imm8

unfoldable pub strb_imm_t3 : ℕ → ℕ → ℕ → ℕ
strb_imm_t3 rn rt off_imm8 =
    let p = flag (not (off_imm8 == 0)) in
    let u = flag (s_lt 0 off_imm8) in
    let imm8 = magnitude off_imm8 in
    let flags = 0x7 ∣ p << 2 ∣ u << 1 ∣ 0 in 0xf8000800 ∣ rn << 16 ∣ rt << 12 ∣ flags << 8 ∣ imm8

unfoldable pub strh_imm_t3 : ℕ → ℕ → ℕ → ℕ
strh_imm_t3 rn rt off_imm8 =
    let p = flag (not (off_imm8 == 0)) in
    let u = flag (s_lt 0 off_imm8) in
    let imm8 = magnitude off_imm8 in
    let flags = 0x7 ∣ p << 2 ∣ u << 1 ∣ 0 in 0xf8200800 ∣ rn << 16 ∣ rt << 12 ∣ flags << 8 ∣ imm8

unfoldable pub strd_imm_t1 : RegPair → ℕ → ℕ → ℕ
strd_imm_t1 rn_src rt_dst off_imm8 =
    let p = flag (not (off_imm8 == 0)) in
    let u = flag (s_lt 0 off_imm8) in
    let imm8 = magnitude off_imm8 >> 2 & 0xff in
    0xe8400000
    ∣ p << 24
    ∣ u << 23
    ∣ 0 << 22
    ∣ rt_dst << 16
    ∣ rn_src.lo << 12
    ∣ rn_src.hi << 8
    ∣ imm8
