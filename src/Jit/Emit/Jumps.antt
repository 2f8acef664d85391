-- ===== src/Jit/Emit/Jumps.antt =====
-- libebpf/src/jit_thumb2.c: comparisons and jumps.
use rapid_patch_runtime_ae.Common.{
  ℕ, ◌+◌, ◌-◌, ◌^◌, [], ◌++◌, Bool, not, ◌&&◌, ◌||◌, ◌==◌, if◌then◌else◌, ltb, u8,
}
use rapid_patch_runtime_ae.Jit.CInt.{s_lt, s_le, neg}
use rapid_patch_runtime_ae.Jit.Encode.Alu.{addw_reg_t3, orrw_reg_t2, sbcw_t2}
use rapid_patch_runtime_ae.Jit.Encode.Branch.{b_t1, b_t2, bw_t3, bw_t4}
use rapid_patch_runtime_ae.Jit.Emit.Registers.{Code, emit2, emit4, arm_ip, arm_lr}
use rapid_patch_runtime_ae.Jit.Emit.Basic.{emit_cmp_reg}

unfoldable pub use_b4 : ℕ → Bool
use_b4 inst_num = ltb 20 inst_num

unfoldable pub emit_b_cond : ℕ → ℕ → ℕ → Code
emit_b_cond inst_num off cond =
    if not (use_b4 inst_num) && (s_le (neg 256) off && s_le off 254)
    then emit2 (b_t1 off cond)
    else if s_lt (neg 1048576) off && s_lt off 1048574
    then emit4 (bw_t3 off cond)
    else []

unfoldable pub emit_b : ℕ → Code
emit_b off =
    if s_lt (neg 2048) off && s_lt off 2046
    then emit2 (b_t2 off)
    else if s_lt (neg 16777216) off && s_lt off 16777214
    then emit4 (bw_t4 off)
    else []

-- `op` is a `u8`: the comparison's `EBPF_J…`. Of the operands, `rd` and `rm` are the high halves.
unfoldable pub emit_cmp_cond : ℕ → ℕ → ℕ → ℕ → ℕ → Bool → Code
emit_cmp_cond rd rt rm rn op is_jmp64 =
    if op == 0x40
    then (if is_jmp64
        then emit4 (addw_reg_t3 arm_ip rt rn 0 0 0)
          ++ (emit4 (addw_reg_t3 arm_lr rd rm 0 0 0)
              ++ emit4 (orrw_reg_t2 arm_ip arm_lr arm_ip 0 0 1))
        else emit4 (addw_reg_t3 arm_ip rt rn 0 0 1))
    else if op == 0x10 || op == 0x50 || op == 0x20 || op == 0x30 || op == 0xb0 || op == 0xa0
    then (if is_jmp64 then emit_cmp_reg rd rm ++ emit_cmp_reg rt rn else emit_cmp_reg rt rn)
    else if op == 0xd0 || op == 0x60
    then emit_cmp_reg rn rt ++ (if is_jmp64 then emit4 (sbcw_t2 arm_ip rm rd 0 0 1) else [])
    else if op == 0xc0 || op == 0x70
    then emit_cmp_reg rt rn ++ (if is_jmp64 then emit4 (sbcw_t2 arm_ip rd rm 0 0 1) else [])
    else []

-- The parameter is an `s8`, which the labels of the switch are compared with as an `int`.
abbrev pub as_s8 : ℕ → ℕ
as_s8 op = if ltb (u8 op) (2 ^ 7) then u8 op else u8 op + (2 ^ 32 - 2 ^ 8)

-- The codes of the conditions are those of the manual: EQ 0, NE 1, CS 2, CC 3, HI 8, LS 9, GE 10,
-- LT 11.
unfoldable pub emit_jump : ℕ → ℕ → ℕ → Code
emit_jump inst_num jmp_off byte =
    let op = as_s8 byte in
    if op == 0x50 || op == 0x40
    then emit_b_cond inst_num jmp_off 0x1
    else if op == 0x10
    then emit_b_cond inst_num jmp_off 0x0
    else if op == 0x20
    then emit_b_cond inst_num jmp_off 0x8
    else if op == 0x30
    then emit_b_cond inst_num jmp_off 0x2
    else if op == 0x60
    then emit_b_cond inst_num jmp_off 0xb
    else if op == 0x70
    then emit_b_cond inst_num jmp_off 0xa
    else if op == 0xb0
    then emit_b_cond inst_num jmp_off 0x9
    else if op == 0xa0
    then emit_b_cond inst_num jmp_off 0x3
    else if op == 0xc0
    then emit_b_cond inst_num jmp_off 0xb
    else if op == 0xd0
    then emit_b_cond inst_num jmp_off 0xa
    else []
