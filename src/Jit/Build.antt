-- ===== src/Jit/Build.antt =====
-- libebpf/src/jit_thumb2.c: `build_inst`.
use rapid_patch_runtime_ae.Common.{ℕ, ◌+◌, ◌*◌, ◌^◌, [], ◌++◌, true, false, bit_or}
use rapid_patch_runtime_ae.Vm.Inst.{Op, Alu, Operand, decode}
use rapid_patch_runtime_ae.Jit.CInt.{s16}
use rapid_patch_runtime_ae.Jit.Encode.Memory.{RegPair}
use rapid_patch_runtime_ae.Jit.Emit.Registers.{tmp_reg_2, bpf2a32}
use rapid_patch_runtime_ae.Jit.Emit.Moves.{arm_bpf_get_reg32, arm_bpf_get_reg64, emit_mov_i64}
use rapid_patch_runtime_ae.Jit.Emit.Alu.{
  lsh_imm, rsh_imm, arsh_imm, neg_imm, emit_alu32_imm, emit_u32_div_mod, emit_a32_neg64,
}
use rapid_patch_runtime_ae.Jit.Emit.Shifts.{
  emit_lsh64_reg, emit_lsh64_imm, emit_a32_rsh_r64, emit_a32_rsh_i64, emit_a32_arsh_r64,
  emit_a32_arsh_i64,
}
use rapid_patch_runtime_ae.Jit.Emit.Memory.{emit_ldx_reg, emit_str_reg}
use rapid_patch_runtime_ae.Jit.Cases.{
  Program, Pass, skip, failed, Built, built, build_mov, build_alu, build_shift32, build_mul64,
  build_st, build_jump, build_call, build_exit, build_ja,
}

-- The labels of the switch whose code does not depend on the pass. `off` is promoted to `int`, and
-- `next` is the immediate of the following instruction.
unfoldable pub build_straight : Program → Op → RegPair → RegPair → ℕ → ℕ → ℕ → Built
build_straight g (Op.alu32 Alu.mov s) dst src off imm next = built (build_mov false s dst src imm)
build_straight g (Op.alu64 Alu.mov s) dst src off imm next = built (build_mov true s dst src imm)
build_straight g (Op.alu32 Alu.div s) dst src off imm next =
    built (emit_u32_div_mod dst src true s imm)
build_straight g (Op.alu64 Alu.div s) dst src off imm next =
    built (emit_u32_div_mod dst src true s imm)
build_straight g (Op.alu32 Alu.modulo s) dst src off imm next =
    built (emit_u32_div_mod dst src false s imm)
build_straight g (Op.alu64 Alu.modulo s) dst src off imm next =
    built (emit_u32_div_mod dst src false s imm)
build_straight g (Op.alu32 Alu.lsh Operand.imm) dst src off imm next = build_shift32 lsh_imm dst imm
build_straight g (Op.alu32 Alu.rsh Operand.imm) dst src off imm next = build_shift32 rsh_imm dst imm
build_straight g (Op.alu32 Alu.arsh Operand.imm) dst src off imm next =
    build_shift32 arsh_imm dst imm
build_straight g (Op.alu64 Alu.lsh Operand.imm) dst src off imm next =
    built (emit_lsh64_imm dst imm)
build_straight g (Op.alu64 Alu.lsh Operand.reg) dst src off imm next =
    built (emit_lsh64_reg dst src)
build_straight g (Op.alu64 Alu.rsh Operand.imm) dst src off imm next =
    built (emit_a32_rsh_i64 dst imm)
build_straight g (Op.alu64 Alu.rsh Operand.reg) dst src off imm next =
    built (emit_a32_rsh_r64 dst src)
build_straight g (Op.alu64 Alu.arsh Operand.imm) dst src off imm next =
    built (emit_a32_arsh_i64 dst imm)
build_straight g (Op.alu64 Alu.arsh Operand.reg) dst src off imm next =
    built (emit_a32_arsh_r64 dst src)
build_straight g (Op.alu64 Alu.mul s) dst src off imm next = built (build_mul64 s dst src imm)
build_straight g (Op.alu32 op s) dst src off imm next = built (build_alu false op s dst src imm)
build_straight g (Op.alu64 op s) dst src off imm next = built (build_alu true op s dst src imm)
build_straight g Op.neg32 dst src off imm next = built (emit_alu32_imm dst.lo 0 neg_imm)
build_straight g Op.neg64 dst src off imm next = built (emit_a32_neg64 dst)
build_straight g Op.le dst src off imm next = record { code = []; ret = failed }
build_straight g Op.be dst src off imm next = record { code = []; ret = failed }
build_straight g Op.lddw dst src off imm next = record {
  code = emit_mov_i64 dst (bit_or imm (next * 2 ^ 32));
  ret = skip;
}
build_straight g (Op.ldx size) dst src off imm next =
    let rn = arm_bpf_get_reg32 src.lo tmp_reg_2.lo in
    built (rn.code ++ emit_ldx_reg dst rn.at off size)
build_straight g (Op.st size) dst src off imm next = built (build_st size dst off imm)
build_straight g (Op.stx size) dst src off imm next =
    let rs = arm_bpf_get_reg64 src tmp_reg_2 in
    built (rs.code ++ emit_str_reg dst.lo rs.at off size)
build_straight g Op.call dst src off imm next = built (build_call g imm)
build_straight g _ dst src off imm next = built []

unfoldable pub build_op : Program → Pass → ℕ → ℕ → Op → RegPair → RegPair → ℕ → ℕ → ℕ → Built
build_op g p idx pc (Op.jump c s) dst src off imm next =
    built (build_jump g p pc c s dst src off imm)
build_op g p idx pc Op.ja dst src off imm next = built (build_ja p pc off)
build_op g p idx pc Op.exit dst src off imm next = built (build_exit g p idx pc)
build_op g p idx pc op dst src off imm next = build_straight g op dst src off imm next

unfoldable pub build_inst : Program → Pass → ℕ → ℕ → Built
build_inst g p idx pc =
    let inst = g.insts pc in
    build_op g p idx pc (decode inst.opcode) (bpf2a32 g.beyond inst.dst) (bpf2a32 g.beyond inst.src)
      (s16 inst.offset) inst.imm ((g.insts (pc + 1)).imm)
