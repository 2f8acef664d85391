-- ===== src/Jit/Emit/Moves.antt =====
-- libebpf/src/jit_thumb2.c: moves between registers, from immediates and from the scratch space.
use rapid_patch_runtime_ae.Common.{
  ℕ, ◌-◌, ◌/◌, ◌^◌, [], ◌++◌, Bool, true, false, not, ◌&&◌, ◌||◌, ◌==◌, if◌then◌else◌, ltb, leb,
  bit_and, bit_or, u8, u16, u32,
}
use rapid_patch_runtime_ae.Jit.CInt.{◌∣◌, ◌&◌, ◌<<◌, ◌>>◌, s_lt}
use rapid_patch_runtime_ae.Jit.Encode.Moves.{mov_reg_t1, movw_reg_t3, push_t1, pushw_t2}
use rapid_patch_runtime_ae.Jit.Encode.Memory.{RegPair}
use rapid_patch_runtime_ae.Jit.Emit.Registers.{
  Code, emit2, emit4, arm_fp, arm_sp, arm_lr, tmp_reg_1, tmp_reg_2, is_stacked,
}
use rapid_patch_runtime_ae.Jit.Emit.Basic.{emit_ldr_i, emit_str_i, emit_ldrd_i, emit_strd_i}

unfoldable pub emit_mov_reg : ℕ → ℕ → Code
emit_mov_reg src dst =
    if not (dst == arm_sp) && not (src == arm_sp)
    then emit2 (mov_reg_t1 dst src)
    else emit4 (movw_reg_t3 dst src 0)

-- The register to use in place of `reg`, and the code that fills it.
pub record Fetched (A : Type 0) : Type 0 where
  pub code : Code
  pub at : A

unfoldable pub arm_bpf_get_reg32 : ℕ → ℕ → Fetched ℕ
arm_bpf_get_reg32 reg tmp =
    if is_stacked reg
    then record { code = emit_ldr_i tmp arm_fp reg; at = tmp }
    else record { code = []; at = reg }

unfoldable pub arm_bpf_put_reg32 : ℕ → ℕ → Code
arm_bpf_put_reg32 reg src =
    if is_stacked reg
    then emit_str_i arm_fp src reg
    else if reg == src
    then []
    else emit_mov_reg src reg

unfoldable pub arm_bpf_get_reg64 : RegPair → RegPair → Fetched RegPair
arm_bpf_get_reg64 reg tmp =
    if is_stacked reg.lo
    then record { code = emit_ldrd_i tmp arm_fp reg.lo; at = tmp }
    else record { code = []; at = reg }

unfoldable pub emit_a32_mov_reg : ℕ → ℕ → Code
emit_a32_mov_reg src dst =
    let rt = arm_bpf_get_reg32 src tmp_reg_1.hi in rt.code ++ arm_bpf_put_reg32 dst rt.at

unfoldable pub arm_bpf_put_reg64 : RegPair → RegPair → Code
arm_bpf_put_reg64 reg src =
    if is_stacked reg.lo
    then emit_strd_i src arm_fp reg.lo
    else (if reg.lo == src.lo then [] else emit_a32_mov_reg src.lo reg.lo)
      ++ (if reg.hi == src.hi then [] else emit_a32_mov_reg src.hi reg.hi)

-- `movw` and `movt`, which spread a half-word over four fields.
abbrev pub mov_half : ℕ → ℕ → ℕ → ℕ
mov_half opcode rd v1 =
    let i4 = (v1 & 0xf000) >> 12 in
    let i = (v1 & 0x0800) >> 11 in
    let i3 = (v1 & 0x0700) >> 8 in
    let i8 = v1 & 0x00ff in opcode ∣ i << 26 ∣ i4 << 16 ∣ i3 << 12 ∣ rd << 8 ∣ i8

-- The register is a `u8` here.
unfoldable pub emit_mov_imm : ℕ → ℕ → Code
emit_mov_imm reg val =
    let rd = u8 reg in
    if leb val 0xff && ltb rd 8
    then emit2 (0x2000 ∣ rd << 8 ∣ val)
    else emit4 (mov_half 0xf2400000 rd (val & 0xffff))
      ++ (if ltb 0xffff val then emit4 (mov_half 0xf2c00000 rd (val >> 16)) else [])

unfoldable pub emit_mov_reg64 : Bool → RegPair → RegPair → Code
emit_mov_reg64 false dst src = emit_a32_mov_reg src.lo dst.lo
emit_mov_reg64 true dst src =
    if is_stacked src.lo && is_stacked dst.lo
    then emit_ldrd_i tmp_reg_1 arm_fp src.lo ++ emit_strd_i tmp_reg_1 arm_fp dst.lo
    else if is_stacked src.lo
    then emit_ldrd_i dst arm_fp src.lo
    else if is_stacked dst.lo
    then emit_strd_i src arm_fp dst.lo
    else emit_mov_reg src.lo dst.lo ++ emit_mov_reg src.hi dst.hi

unfoldable pub emit_push_r64 : RegPair → Code
emit_push_r64 src =
    let rt = arm_bpf_get_reg64 src tmp_reg_2 in
    let reg_set = u16 (1 << rt.at.lo ∣ 1 << rt.at.hi) in
    rt.code
    ++ (if (rt.at.hi == arm_lr || s_lt rt.at.hi 8) && (rt.at.lo == arm_lr || s_lt rt.at.lo 8)
        then emit2 (push_t1 reg_set)
        else emit4 (pushw_t2 reg_set))

unfoldable pub emit_mov_i64 : RegPair → ℕ → Code
emit_mov_i64 dst val =
    let rd = if is_stacked dst.lo then tmp_reg_1 else dst in
    emit_mov_imm rd.lo (u32 val)
    ++ (emit_mov_imm rd.hi (u32 (val / 2 ^ 32)) ++ arm_bpf_put_reg64 dst rd)

unfoldable pub emit_mov_se_imm64 : Bool → RegPair → ℕ → Code
emit_mov_se_imm64 true dst val =
    emit_mov_i64 dst (if bit_and val (2 ^ 31) == 0 then val else bit_or val (2 ^ 64 - 2 ^ 32))
emit_mov_se_imm64 false dst val = emit_mov_imm dst.lo val
