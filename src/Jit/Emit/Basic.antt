-- ===== src/Jit/Emit/Basic.antt =====
-- libebpf/src/jit_thumb2.c: the emission of one load, store or arithmetic instruction.
use rapid_patch_runtime_ae.Common.{
  ℕ, [], Bool, true, false, not, ◌&&◌, ◌||◌, ◌==◌, if◌then◌else◌, u8,
}
use rapid_patch_runtime_ae.Jit.CInt.{◌∣◌, ◌&◌, ◌<<◌, flag, neg, s_lt, s_le, magnitude}
use rapid_patch_runtime_ae.Jit.Encode.Alu.{
  add_reg_t2, add_imm_t2, add_imm_t4, sub_imm_t1, sub_imm_t2, subw_imm_t4, sub_reg_t1, sub_reg_t2,
  sbcw_t2, orr_reg_t1, orrw_reg_t2, and_reg_t1, and_reg_t2,
}
use rapid_patch_runtime_ae.Jit.Encode.Moves.{cmp_reg_t1, cmp_reg_t2}
use rapid_patch_runtime_ae.Jit.Encode.Memory.{
  RegPair, ldr_imm_t4, ldrb_imm_t1, ldrb_imm_t3, ldrd_imm_t1, strd_imm_t1,
}
use rapid_patch_runtime_ae.Jit.Emit.Registers.{Code, emit2, emit4}

unfoldable pub emit_ldr_i : ℕ → ℕ → ℕ → Code
emit_ldr_i rt rn off =
    if off == 0
    then emit4 (0xf8d00000 ∣ rn << 16 ∣ rt << 12 ∣ off & 0xfff)
    else emit4 (ldr_imm_t4 rt rn off)

-- `off <= imm && off >= -imm`.
abbrev pub within : ℕ → ℕ → Bool
within off imm = s_le off imm && s_le (neg imm) off

unfoldable pub emit_ldrb_i : ℕ → ℕ → ℕ → Code
emit_ldrb_i rt rn off =
    if within off 0x1f && (s_lt rt 8 && s_lt rn 8)
    then emit2 (ldrb_imm_t1 rt rn off)
    else if within off 0xff
    then emit4 (ldrb_imm_t3 rt rn off)
    else if within off 0xfff
    then emit4 (0xf8900000 ∣ rn << 16 ∣ rt << 12 ∣ off)
    else []

unfoldable pub emit_ldrh_i : ℕ → ℕ → ℕ → Code
emit_ldrh_i rt rn off =
    if within off 0x1f
    then emit2 (0x8800 ∣ (off & 0x1f) << 6 ∣ rn << 3 ∣ rt)
    else if within off 0xff
    then emit4 (0xf8300000 ∣ rn << 16 ∣ rt << 12 ∣ 0xe << 8 ∣ off & 0xff)
    else if within off 0xfff
    then emit4 (0xf8b00000 ∣ rn << 16 ∣ rt << 12 ∣ off & 0xfff)
    else []

unfoldable pub emit_ldrd_i : RegPair → ℕ → ℕ → Code
emit_ldrd_i rt rn off = emit4 (ldrd_imm_t1 rt rn off)

unfoldable pub emit_str_i : ℕ → ℕ → ℕ → Code
emit_str_i rn_src rt off =
    let p = flag (not (off == 0)) in
    let u = flag (s_lt 0 off) in
    let imm8 = u8 (magnitude off) in
    let flags = u8 (0x8 ∣ p << 2 ∣ u << 1 ∣ 0) in
    emit4 (0xf8400000 ∣ rn_src << 16 ∣ rt << 12 ∣ flags << 8 ∣ imm8)

unfoldable pub emit_strd_i : RegPair → ℕ → ℕ → Code
emit_strd_i rn_src rt_dst off = emit4 (strd_imm_t1 rn_src rt_dst off)

unfoldable pub emit_add_reg : ℕ → ℕ → Bool → Bool → Code
emit_add_reg dst src true true = emit4 (0xeb400000 ∣ src << 16 ∣ dst << 8 ∣ dst)
emit_add_reg dst src true false = emit4 (0xeb100000 ∣ src << 16 ∣ dst << 8 ∣ dst)
emit_add_reg dst src false hi = emit2 (add_reg_t2 dst src)

unfoldable pub emit_add_imm : ℕ → ℕ → ℕ → Code
emit_add_imm dst src val =
    if s_le 0 val && s_le val 255 && (dst == src && s_lt dst 8)
    then emit2 (add_imm_t2 dst val)
    else if s_le 0 val && s_le val 4095
    then emit4 (add_imm_t4 dst src val)
    else []

unfoldable pub emit_sub_imm : ℕ → ℕ → ℕ → Code
emit_sub_imm dst src val =
    let low = s_lt dst 8 && s_le 0 dst && (s_lt src 8 && s_le 0 src) in
    if s_lt val 0 || s_lt 4095 val
    then []
    else if low && (dst == src && s_le val 0xff)
    then emit2 (sub_imm_t2 dst val)
    else if low && s_le val 0x7
    then emit2 (sub_imm_t1 dst src val)
    else emit4 (subw_imm_t4 dst src val 0)

unfoldable pub emit_sub_reg : ℕ → ℕ → Bool → Bool → Code
emit_sub_reg dst src true false = emit4 (sub_reg_t2 dst dst src 0 0 1)
emit_sub_reg dst src true true = emit4 (sbcw_t2 dst dst src 0 0 0)
emit_sub_reg dst src false hi =
    if s_lt src 8 && s_lt dst 8
    then emit2 (sub_reg_t1 dst dst src)
    else emit4 (sub_reg_t2 dst dst src 0 0 0)

unfoldable pub emit_orr_reg : ℕ → ℕ → Code
emit_orr_reg dst src =
    if s_lt dst 8 && s_lt src 8
    then emit2 (orr_reg_t1 dst src)
    else emit4 (orrw_reg_t2 dst dst src 0 0 0)

unfoldable pub emit_and_reg : ℕ → ℕ → Code
emit_and_reg dst src =
    if s_lt dst 8 && s_lt src 8
    then emit2 (and_reg_t1 dst src)
    else emit4 (and_reg_t2 dst dst src 0 0 0)

unfoldable pub emit_cmp_reg : ℕ → ℕ → Code
emit_cmp_reg rn rm =
    if s_lt rn 8 && s_lt rm 8 then emit2 (cmp_reg_t1 rn rm) else emit2 (cmp_reg_t2 rn rm)
