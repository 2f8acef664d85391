-- ===== src/Jit/Emit/Memory.antt =====
-- libebpf/src/jit_thumb2.c: loads to and stores from eBPF registers.
use rapid_patch_runtime_ae.Common.{ℕ, ◌+◌, [], ◌++◌, false, not, ◌==◌, if◌then◌else◌}
use rapid_patch_runtime_ae.Vm.Inst.{Size}
use rapid_patch_runtime_ae.Jit.CInt.{s16}
use rapid_patch_runtime_ae.Jit.Encode.Memory.{RegPair, strb_imm_t3, strh_imm_t3}
use rapid_patch_runtime_ae.Jit.Emit.Registers.{Code, emit4, tmp_reg_1, is_stacked, is_ldst_imm}
use rapid_patch_runtime_ae.Jit.Emit.Basic.{
  emit_add_reg, emit_ldrb_i, emit_ldrh_i, emit_ldr_i, emit_str_i,
}
use rapid_patch_runtime_ae.Jit.Emit.Moves.{
  Fetched, arm_bpf_get_reg32, arm_bpf_put_reg64, emit_a32_mov_reg, emit_mov_imm,
}

abbrev pub load_form : Size → RegPair → ℕ → ℕ → Code
load_form Size.b rd rm off = emit_ldrb_i rd.lo rm off
load_form Size.h rd rm off = emit_ldrh_i rd.lo rm off
load_form Size.w rd rm off = emit_ldr_i rd.lo rm off
load_form Size.dw rd rm off = emit_ldr_i rd.lo rm off ++ emit_ldr_i rd.hi rm (s16 (off + 4))

-- The base register and the offset of the access, with the code for them.
abbrev pub load_base : RegPair → ℕ → ℕ → Size → Fetched (ℕ × ℕ)
load_base rd src off size =
    let tmp = tmp_reg_1.hi in
    if not (is_ldst_imm off size)
    then record { code = emit_mov_imm tmp off ++ emit_add_reg tmp src false false; at = (tmp, 0) }
    else if rd.lo == src
    then record { code = emit_a32_mov_reg src tmp; at = (tmp, off) }
    else record { code = []; at = (src, off) }

unfoldable pub emit_ldx_reg : RegPair → ℕ → ℕ → Size → Code
emit_ldx_reg dst src off size =
    let rd = if is_stacked dst.lo then tmp_reg_1 else dst in
    let base = load_base rd src off size in
    base.code ++ (load_form size rd (base.at).0 (base.at).1 ++ arm_bpf_put_reg64 dst rd)

abbrev pub store_form : Size → RegPair → ℕ → ℕ → Code
store_form Size.b src rd off = emit4 (strb_imm_t3 src.lo rd off)
store_form Size.h src rd off = emit4 (strh_imm_t3 src.lo rd off)
store_form Size.w src rd off = emit_str_i src.lo rd off
store_form Size.dw src rd off = emit_str_i src.lo rd off ++ emit_str_i src.hi rd (s16 (off + 4))

unfoldable pub emit_str_reg : ℕ → RegPair → ℕ → Size → Code
emit_str_reg dst src off size =
    let rd = arm_bpf_get_reg32 dst tmp_reg_1.lo in
    let tmp = tmp_reg_1.hi in
    rd.code
    ++ (if not (is_ldst_imm off size)
        then emit_mov_imm tmp off
          ++ (emit_add_reg tmp rd.at false false ++ store_form size src tmp 0)
        else store_form size src rd.at off)
