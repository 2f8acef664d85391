-- ===== src/Vm/Alu.antt =====
-- The arithmetic cases of the switch in libebpf/src/ebpf_vm.c, over a destination and an operand.
-- A shift by the width or more and a division by zero are undefined in C.
use rapid_patch_runtime_ae.Common.{
  ℕ, ◌+◌, ◌-◌, ◌*◌, ◌/◌, ◌%◌, ◌^◌, Bool, ◌==◌, ltb, leb, not, if◌then◌else◌, bit_and, bit_or,
  bit_xor, u32, u64, sext32,
}
use rapid_patch_runtime_ae.Common.Int.{signed32, signed64, shr_z, wrap32, wrap64, lt_z, le_z}
use rapid_patch_runtime_ae.Vm.Inst.{Alu, Cond, Operand}
use rapid_patch_runtime_ae.Vm.State.{Result, ok, stop, undefined, rejected, require}
use rapid_patch_runtime_ae.Vm.Swap.{swap16, swap32, swap64}

-- A quotient or a remainder, undefined at zero.
abbrev div_by : ℕ → ℕ → Result ℕ
div_by d x = if x == 0 then stop undefined else ok (d / x)

abbrev mod_by : ℕ → ℕ → Result ℕ
mod_by d x = if x == 0 then stop undefined else ok (d % x)

-- `if (SRC == 0) return -1;`, which stands before the division by a register, and there only. It
-- tests all 64 bits of the register.
unfoldable pub check_divisor : Alu → Operand → ℕ → Result (Unit {0})
check_divisor Alu.div Operand.reg x = require (not (x == 0)) rejected
check_divisor Alu.modulo Operand.reg x = require (not (x == 0)) rejected
check_divisor _ _ x = Result.ok tt

-- The 32-bit operations on `DST = d` and an operand `x`: the pattern of `IMM`, or `SRC`.
unfoldable pub alu32_op : Alu → ℕ → ℕ → Result ℕ
alu32_op Alu.add d x = ok (u32 (u32 d + u32 x))
alu32_op Alu.sub d x = ok (u32 (u32 d + 2 ^ 32 - u32 x))
alu32_op Alu.mul d x = ok (u32 (u32 d * u32 x))
alu32_op Alu.div d x = div_by (u32 d) (u32 x)
alu32_op Alu.or d x = ok (bit_or (u32 d) (u32 x))
alu32_op Alu.and d x = ok (bit_and (u32 d) (u32 x))
alu32_op Alu.lsh d x = if ltb (u32 x) 32 then ok (u32 (u32 d * 2 ^ u32 x)) else stop undefined
alu32_op Alu.rsh d x = if ltb (u32 x) 32 then ok (u32 d / 2 ^ u32 x) else stop undefined
alu32_op Alu.modulo d x = mod_by (u32 d) (u32 x)
alu32_op Alu.xor d x = ok (bit_xor (u32 d) (u32 x))
alu32_op Alu.mov d x = ok (u32 x)
alu32_op Alu.arsh d x =
    if ltb x 32 then ok (wrap32 (shr_z (signed32 (u32 d)) x)) else stop undefined

-- The 64-bit operations on `DST = d` and an operand `x`: `IMM` sign-extended, or `SRC`.
-- `EBPF_OP_DIV64_REG` tests `SRC` but divides by `IMM`, which is the last argument, sign-extended.
unfoldable pub alu64_op : Alu → ℕ → ℕ → ℕ → Result ℕ
alu64_op Alu.add d x i = ok (u64 (d + x))
alu64_op Alu.sub d x i = ok (u64 (d + 2 ^ 64 - x))
alu64_op Alu.mul d x i = ok (u64 (d * x))
alu64_op Alu.div d x i = div_by d i
alu64_op Alu.or d x i = ok (bit_or d x)
alu64_op Alu.and d x i = ok (bit_and d x)
alu64_op Alu.lsh d x i = if ltb x 64 then ok (u64 (d * 2 ^ x)) else stop undefined
alu64_op Alu.rsh d x i = if ltb x 64 then ok (d / 2 ^ x) else stop undefined
alu64_op Alu.modulo d x i = mod_by d x
alu64_op Alu.xor d x i = ok (bit_xor d x)
alu64_op Alu.mov d x i = ok x
alu64_op Alu.arsh d x i = if ltb x 64 then ok (wrap64 (shr_z (signed64 d) x)) else stop undefined

-- `EBPF_OP_NEG` and `EBPF_OP_NEG64`.
unfoldable pub neg32_op : ℕ → ℕ
neg32_op d = u32 (2 ^ 64 - d)

unfoldable pub neg64_op : ℕ → ℕ
neg64_op d = u64 (2 ^ 64 - d)

-- `EBPF_OP_LE` on a little endian machine: `my_htole16` and its like are the identity.
unfoldable pub le_op : ℕ → ℕ → ℕ
le_op width d = d

-- `EBPF_OP_BE`; another width than 16, 32 or 64 changes nothing.
unfoldable pub be_op : ℕ → ℕ → ℕ
be_op width d =
    if width == 16
    then swap16 d
    else if width == 32
    then swap32 d
    else if width == 64
    then swap64 d
    else d

-- The tests of the conditional jumps on `DST` and their operand.
unfoldable pub holds : Cond → ℕ → ℕ → Bool
holds Cond.jeq d x = d == x
holds Cond.jgt d x = ltb x d
holds Cond.jge d x = leb x d
holds Cond.jset d x = not (bit_and d x == 0)
holds Cond.jne d x = not (d == x)
holds Cond.jsgt d x = lt_z (signed64 x) (signed64 d)
holds Cond.jsge d x = le_z (signed64 x) (signed64 d)
holds Cond.jlt d x = ltb d x
holds Cond.jle d x = leb d x
holds Cond.jslt d x = lt_z (signed64 d) (signed64 x)
holds Cond.jsle d x = le_z (signed64 d) (signed64 x)

-- `IMM` as a jump's operand: `(u32) IMM` in the unsigned order tests, and else sign-extended.
unfoldable pub jump_imm : Cond → ℕ → ℕ
jump_imm Cond.jgt i = u32 i
jump_imm Cond.jge i = u32 i
jump_imm Cond.jlt i = u32 i
jump_imm Cond.jle i = u32 i
jump_imm _ i = sext32 i
