-- ===== src/Jit/Cases.antt =====
-- libebpf/src/jit_thumb2.c: the cases of `build_inst` and the distances of jumps.
use rapid_patch_runtime_ae.Common.{
  ℕ, ◌+◌, ◌-◌, ◌^◌, [], ◌++◌, Bool, true, false, ◌==◌, if◌then◌else◌, u32,
}
use rapid_patch_runtime_ae.Vm.Inst.{Inst, Alu, Cond, Operand, Size, cond_bits}
use rapid_patch_runtime_ae.Jit.CInt.{s_lt}
use rapid_patch_runtime_ae.Jit.Encode.Branch.{blx_reg_t1}
use rapid_patch_runtime_ae.Jit.Encode.Memory.{RegPair}
use rapid_patch_runtime_ae.Jit.Emit.Registers.{Code, emit2, arm_sp, tmp_reg_1, tmp_reg_2, bpf2a32}
use rapid_patch_runtime_ae.Jit.Emit.Basic.{emit_add_imm}
use rapid_patch_runtime_ae.Jit.Emit.Moves.{
  Fetched, arm_bpf_get_reg32, arm_bpf_get_reg64, emit_mov_imm, emit_mov_reg64, emit_mov_se_imm64,
  emit_push_r64,
}
use rapid_patch_runtime_ae.Jit.Emit.Alu.{ImmOp, emit_alu64_reg, emit_alu32_imm, emit_a32_mul_r64}
use rapid_patch_runtime_ae.Jit.Emit.Memory.{emit_str_reg}
use rapid_patch_runtime_ae.Jit.Emit.Jumps.{use_b4, emit_cmp_cond, emit_jump, emit_b}

-- The part of `jit_state` that stays as it is. `insts` is memory behind a pointer: it has contents
-- past the program's end as well. `helpers` is what stands at `__bpf_call_base + imm * 4`, and
-- `beyond` what follows the table `bpf2a32`.
pub record Program : Type 0 where
  pub insts : ℕ → Inst
  pub inst_num : ℕ
  pub helpers : ℕ → ℕ
  pub beyond : RegPair

-- The part that tells the two passes apart.
pub record Pass : Type 0 where
  pub need_gen : Bool
  pub offsets : ℕ → ℕ
  pub epilogue : ℕ

unfoldable pub bpf2a32_offset : Pass → ℕ → ℕ → ℕ → ℕ
bpf2a32_offset p bpf_from bpf_to bsize =
    if p.need_gen
    then u32 (p.offsets bpf_to + 2 ^ 33 - u32 (p.offsets bpf_from + 2 ^ 32 - bsize) - 4)
    else 0

unfoldable pub epilogue_offset : Pass → ℕ → ℕ
epilogue_offset p idx = if p.need_gen then u32 (p.epilogue + 2 ^ 33 - idx - 4) else 0

-- The three kinds of result of `build_inst`: 0, 1 and -1.
pub data Ret : Type 0 where
  done skip failed : Ret

pub record Built : Type 0 where
  pub code : Code
  pub ret : Ret

abbrev pub built : Code → Built
built code = record { code = code; ret = done }

-- The moves; a register move with the immediate 1 clears the upper half.
unfoldable pub build_mov : Bool → Operand → RegPair → RegPair → ℕ → Code
build_mov is64 Operand.reg dst src imm =
    if imm == 1 then emit_mov_imm dst.hi 0 else emit_mov_reg64 is64 dst src
build_mov is64 Operand.imm dst src imm = emit_mov_se_imm64 is64 dst imm

unfoldable pub build_alu : Bool → Alu → Operand → RegPair → RegPair → ℕ → Code
build_alu is64 op Operand.reg dst src imm = emit_alu64_reg is64 dst src op
build_alu is64 op Operand.imm dst src imm =
    emit_mov_se_imm64 is64 tmp_reg_2 imm ++ emit_alu64_reg is64 dst tmp_reg_2 op

-- A shift of the lower half by a constant: more than 31 is refused, and 0 does nothing.
unfoldable pub build_shift32 : ImmOp → RegPair → ℕ → Built
build_shift32 op dst imm =
    if s_lt 31 imm
    then record { code = []; ret = failed }
    else if imm == 0
    then built []
    else built (emit_alu32_imm dst.lo imm op)

unfoldable pub build_mul64 : Operand → RegPair → RegPair → ℕ → Code
build_mul64 Operand.reg dst src imm = emit_a32_mul_r64 dst src
build_mul64 Operand.imm dst src imm =
    emit_mov_se_imm64 true tmp_reg_2 imm ++ emit_a32_mul_r64 dst tmp_reg_2

unfoldable pub build_st : Size → RegPair → ℕ → ℕ → Code
build_st Size.dw dst off imm =
    emit_mov_se_imm64 true tmp_reg_2 imm ++ emit_str_reg dst.lo tmp_reg_2 off Size.dw
build_st size dst off imm = emit_mov_imm tmp_reg_2.lo imm ++ emit_str_reg dst.lo tmp_reg_2 off size

-- The other operand of a comparison, high half first.
abbrev pub compared : Operand → RegPair → ℕ → Fetched RegPair
compared Operand.reg src imm =
    let rm = arm_bpf_get_reg32 src.hi tmp_reg_2.hi in
    let rn = arm_bpf_get_reg32 src.lo tmp_reg_2.lo in
    record { code = rm.code ++ rn.code; at = record { hi = rm.at; lo = rn.at } }
compared Operand.imm src imm = record {
  code = emit_mov_se_imm64 true tmp_reg_2 imm;
  at = tmp_reg_2;
}

-- The comparison of a conditional jump, without the jump.
unfoldable pub build_compare : Cond → Operand → RegPair → RegPair → ℕ → Code
build_compare c operand dst src imm =
    let other = compared operand src imm in
    let rd = arm_bpf_get_reg64 dst tmp_reg_1 in
    other.code
    ++ (rd.code ++ emit_cmp_cond rd.at.hi rd.at.lo other.at.hi other.at.lo (cond_bits c) true)

-- The distance of the jump at `pc`, whose own size is `bsize`.
abbrev pub jump_distance : Pass → ℕ → ℕ → ℕ → ℕ
jump_distance p pc off bsize = bpf2a32_offset p pc (u32 (pc + off)) bsize

-- With a constant, a jump to the next instruction is left out.
abbrev pub left_out : Operand → ℕ → Bool
left_out Operand.imm off = off == 0
left_out Operand.reg off = false

unfoldable pub build_jump : Program → Pass → ℕ → Cond → Operand → RegPair → RegPair → ℕ → ℕ → Code
build_jump g p pc c operand dst src off imm =
    if left_out operand off
    then []
    else build_compare c operand dst src imm
      ++ emit_jump g.inst_num (jump_distance p pc off (if use_b4 g.inst_num then 4 else 2))
          (cond_bits c)

unfoldable pub build_call : Program → ℕ → Code
build_call g imm =
    let r = bpf2a32 g.beyond in
    emit_mov_reg64 true (r 0) (r 1)
    ++ (emit_mov_reg64 true (r 1) (r 2)
        ++ (emit_push_r64 (r 5)
            ++ (emit_push_r64 (r 4)
                ++ (emit_push_r64 (r 3)
                    ++ (emit_mov_imm tmp_reg_1.lo (g.helpers imm)
                        ++ (emit2 (blx_reg_t1 tmp_reg_1.lo) ++ emit_add_imm arm_sp arm_sp 24))))))

unfoldable pub build_exit : Program → Pass → ℕ → ℕ → Code
build_exit g p idx pc = if pc + 1 == g.inst_num then [] else emit_b (epilogue_offset p idx)

unfoldable pub build_ja : Pass → ℕ → ℕ → Code
build_ja p pc off = if off == 0 then [] else emit_b (jump_distance p pc off 2)
