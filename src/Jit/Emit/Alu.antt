-- ===== src/Jit/Emit/Alu.antt =====
-- libebpf/src/jit_thumb2.c: arithmetic and logic.
use rapid_patch_runtime_ae.Common.{ℕ, [], ◌++◌, Bool, true, false, ◌&&◌, if◌then◌else◌, u16}
use rapid_patch_runtime_ae.Vm.Inst.{Alu, Operand}
use rapid_patch_runtime_ae.Jit.CInt.{◌∣◌, ◌<<◌, s_lt}
use rapid_patch_runtime_ae.Jit.Encode.Alu.{
  eor_reg_t2, mul_reg_t2, lslw_reg_t2, lsrw_reg_t2, asrw_reg_t2, rsbw_imm_t2, mul_t2, umull_t2,
  add_reg_t2,
}
use rapid_patch_runtime_ae.Jit.Encode.Memory.{RegPair}
use rapid_patch_runtime_ae.Jit.Emit.Registers.{
  Code, emit2, emit4, arm_ip, arm_lr, tmp_reg_1, tmp_reg_2,
}
use rapid_patch_runtime_ae.Jit.Emit.Basic.{emit_add_reg, emit_sub_reg, emit_orr_reg, emit_and_reg}
use rapid_patch_runtime_ae.Jit.Emit.Moves.{
  arm_bpf_get_reg32, arm_bpf_put_reg32, arm_bpf_get_reg64, arm_bpf_put_reg64, emit_mov_imm,
}

-- A short form for registers 1 to 7, and a long one.
abbrev pub short_or : ℕ → ℕ → ℕ → ℕ → Code
short_or rd rn opcode long =
    if s_lt 0 rn && s_lt rn 8 && (s_lt 0 rd && s_lt rd 8)
    then emit2 (opcode ∣ rn << 3 ∣ rd)
    else emit4 long

-- The switch of `emit_alu32_reg`; it has no other cases.
unfoldable pub emit_alu_op : Alu → ℕ → ℕ → Bool → Bool → Code
emit_alu_op Alu.add rd rn is64 hi = emit_add_reg rd rn is64 hi
emit_alu_op Alu.sub rd rn is64 hi = emit_sub_reg rd rn is64 hi
emit_alu_op Alu.or rd rn is64 hi = emit_orr_reg rd rn
emit_alu_op Alu.and rd rn is64 hi = emit_and_reg rd rn
emit_alu_op Alu.xor rd rn is64 hi = short_or rd rn 0x4040 (eor_reg_t2 rd rn rd 0 3 0)
emit_alu_op Alu.mul rd rn is64 hi = short_or rd rn 0x4340 (mul_reg_t2 rd rn rd)
emit_alu_op Alu.lsh rd rn is64 hi = short_or rd rn 0x4080 (lslw_reg_t2 rd rd rn 0)
emit_alu_op Alu.rsh rd rn is64 hi = short_or rd rn 0x40c0 (lsrw_reg_t2 rd rd rn 0)
emit_alu_op Alu.arsh rd rn is64 hi = short_or rd rn 0x4100 (asrw_reg_t2 rd rd rn 0)
emit_alu_op Alu.div rd rn is64 hi = []
emit_alu_op Alu.modulo rd rn is64 hi = []
emit_alu_op Alu.mov rd rn is64 hi = []

unfoldable pub emit_alu32_reg : ℕ → ℕ → Bool → Bool → Alu → Code
emit_alu32_reg dst src is64 hi op =
    let rn = arm_bpf_get_reg32 src tmp_reg_1.lo in
    let rd = arm_bpf_get_reg32 dst tmp_reg_1.hi in
    rn.code ++ (rd.code ++ (emit_alu_op op rd.at rn.at is64 hi ++ arm_bpf_put_reg32 dst rd.at))

unfoldable pub emit_alu64_reg : Bool → RegPair → RegPair → Alu → Code
emit_alu64_reg true dst src op =
    let rd = arm_bpf_get_reg64 dst tmp_reg_1 in
    let rs = arm_bpf_get_reg64 src tmp_reg_2 in
    rd.code
    ++ (rs.code
        ++ (emit_alu32_reg rd.at.lo rs.at.lo true false op
            ++ (emit_alu32_reg rd.at.hi rs.at.hi true true op ++ arm_bpf_put_reg64 dst rd.at)))
emit_alu64_reg false dst src op =
    let rd = arm_bpf_get_reg64 dst tmp_reg_1 in
    let rs = arm_bpf_get_reg32 src.lo tmp_reg_2.lo in
    rd.code
    ++ (rs.code ++ (emit_alu32_reg rd.at.lo rs.at true false op ++ arm_bpf_put_reg64 dst rd.at))

-- The operations with an own 16-bit form for a constant.
pub data ImmOp : Type 0 where
  lsh_imm rsh_imm arsh_imm neg_imm : ImmOp

abbrev pub imm_form : ImmOp → ℕ → ℕ → ℕ
imm_form lsh_imm val rd = 0x0000 ∣ val << 6 ∣ rd << 3 ∣ rd
imm_form rsh_imm val rd = 0x0800 ∣ val << 6 ∣ rd << 3 ∣ rd
imm_form arsh_imm val rd = 0x1000 ∣ val << 6 ∣ rd << 3 ∣ rd
imm_form neg_imm val rd = 0x4240 ∣ rd << 3 ∣ rd

-- `val` is a `u16`.
unfoldable pub emit_alu32_imm : ℕ → ℕ → ImmOp → Code
emit_alu32_imm dst val op =
    let rd = arm_bpf_get_reg32 dst tmp_reg_1.hi in
    rd.code ++ (emit2 (imm_form op (u16 val) rd.at) ++ arm_bpf_put_reg32 dst rd.at)

-- The divisor: the source register, or a temporary that holds the constant, cut to a `u16`.
abbrev pub divisor : RegPair → Operand → ℕ → Code × ℕ
divisor src Operand.reg imm = let rt = arm_bpf_get_reg32 src.lo tmp_reg_2.hi in (rt.code, rt.at)
divisor src Operand.imm imm = (emit_mov_imm tmp_reg_2.hi (u16 imm), tmp_reg_2.hi)

-- `is_div` is `BPF_OP(code) == EBPF_ALU_DIV`.
unfoldable pub emit_u32_div_mod : RegPair → RegPair → Bool → Operand → ℕ → Code
emit_u32_div_mod dst src is_div operand imm =
    let rd = arm_bpf_get_reg32 dst.lo tmp_reg_2.lo in
    let (filled, rt) = divisor src operand imm in
    rd.code
    ++ (filled
        ++ ((if is_div
              then emit4 (0xfbb0f0f0 ∣ rd.at << 16 ∣ rd.at << 8 ∣ rt)
              else emit4 (0xfbb0f0f0 ∣ rd.at << 16 ∣ arm_ip << 8 ∣ rt)
                ++ emit4 (0xfb000010 ∣ rd.at << 16 ∣ arm_ip << 12 ∣ rd.at << 8 ∣ rt))
            ++ arm_bpf_put_reg32 dst.lo rd.at))

unfoldable pub emit_a32_neg64 : RegPair → Code
emit_a32_neg64 dst =
    let rd = arm_bpf_get_reg64 dst tmp_reg_1 in
    rd.code
    ++ (emit4 (rsbw_imm_t2 rd.at.lo rd.at.lo 0 1)
        ++ (emit4 (rsbw_imm_t2 rd.at.hi rd.at.hi 0 1) ++ arm_bpf_put_reg64 dst rd.at))

unfoldable pub emit_a32_mul_r64 : RegPair → RegPair → Code
emit_a32_mul_r64 dst src =
    let rd = arm_bpf_get_reg64 dst tmp_reg_1 in
    let rt = arm_bpf_get_reg64 src tmp_reg_2 in
    rd.code
    ++ (rt.code
        ++ (emit4 (mul_t2 arm_ip rd.at.lo rt.at.hi)
            ++ (emit4 (mul_t2 arm_lr rd.at.hi rt.at.lo)
                ++ (emit2 (add_reg_t2 arm_lr arm_ip)
                    ++ (emit4 (umull_t2 arm_ip rd.at.hi rd.at.lo rt.at.lo)
                        ++ (emit2 (add_reg_t2 rd.at.hi arm_lr)
                            ++ (arm_bpf_put_reg32 dst.lo arm_ip
                                ++ arm_bpf_put_reg32 dst.hi rd.at.hi)))))))
