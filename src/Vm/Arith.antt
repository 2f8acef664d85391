-- ===== src/Vm/Arith.antt =====
-- What the arithmetic and the tests of the interpreter mean, and where the guards of the divisions
-- in ebpf_vm.c do not fit what they divide by.
use rapid_patch_runtime_ae.Common.{
  ℕ, ◌/◌, ◌^◌, ◌<◌, ◌≡◌, ◌≢◌, arith, some, get_elem?, set, u32, u64, sext32, ◌⊎◌, inl, inr, ltb,
  ◌==◌, if◌then◌else◌, Bool-cases, ltb→lt,
}
use native.Mathlib.Nat.{div-le_self}
use rapid_patch_runtime_ae.Common.Bits.{bit_or-lt, bit_xor-lt, bit_and-le_right}
use rapid_patch_runtime_ae.Common.Int.{ℤ, pos, negsuc, signed32, signed64, shr_z, wrap32, wrap64}
use rapid_patch_runtime_ae.Vm.Inst.{Inst, Op, Alu, Operand}
use rapid_patch_runtime_ae.Vm.State.{Vm, Frame, State, ok, stop, rejected, undefined}
use rapid_patch_runtime_ae.Vm.Alu.{alu32_op, alu64_op, check_divisor}
use rapid_patch_runtime_ae.Vm.Step.{exec_op}

-- Sign extension of an immediate keeps the number that it stands for.
pub signed64-sext32 : (n : ℕ) → n < 2 ^ 32 → signed64 (sext32 n) ≡ signed32 n
signed64-sext32 n h = ground arith

-- The numbers from -m to m - 1.
abbrev Fits : ℕ → ℤ → Type 0
Fits m (pos n) = n < m
Fits m (negsuc n) = n < m

shr_z-Fits : (z : ℤ) (k m : ℕ) → Fits m z → Fits m (shr_z z k)
shr_z-Fits (pos n) k m h = omega (arith, div-le_self n (2 ^ k))
shr_z-Fits (negsuc n) k m h = omega (arith, div-le_self n (2 ^ k))

signed32-Fits : (w : ℕ) → w < 2 ^ 32 → Fits (2 ^ 31) (signed32 w)
signed32-Fits w h = elim (Bool-cases (ltb w (2 ^ 31))) [
  | inl low ↦ rw low (ltb→lt w _ low)
  | inr high ↦ rw high (ground arith)
]

signed64-Fits : (w : ℕ) → w < 2 ^ 64 → Fits (2 ^ 63) (signed64 w)
signed64-Fits w h = elim (Bool-cases (ltb w (2 ^ 63))) [
  | inl low ↦ rw low (ltb→lt w _ low)
  | inr high ↦ rw high (ground arith)
]

signed32-wrap32 : (z : ℤ) → Fits (2 ^ 31) z → signed32 (wrap32 z) ≡ z
signed32-wrap32 (pos n) h = ground arith
signed32-wrap32 (negsuc n) h = ground arith

signed64-wrap64 : (z : ℤ) → Fits (2 ^ 63) z → signed64 (wrap64 z) ≡ z
signed64-wrap64 (pos n) h = ground arith
signed64-wrap64 (negsuc n) h = ground arith

wrap32-lt : (z : ℤ) → wrap32 z < 2 ^ 32
wrap32-lt (pos n) = omega arith
wrap32-lt (negsuc n) = omega arith

-- `ARSH` by a count below the width is the division by a power of two that rounds down, on the
-- signed numbers that the 32-bit and 64-bit registers stand for.
arsh_signed :
    (d x i : ℕ)
    → d < 2 ^ 64
    → x < 32
    → (r s : ℕ) × (alu32_op Alu.arsh d x ≡ ok r)
      × (signed32 r ≡ shr_z (signed32 (u32 d)) x)
      × (alu64_op Alu.arsh d x i ≡ ok s)
      × (signed64 s ≡ shr_z (signed64 d) x)
unfolding alu32_op alu64_op
arsh_signed d x i hd hx = (
  wrap32 (shr_z (signed32 (u32 d)) x),
  wrap64 (shr_z (signed64 d) x),
  ground arith,
  signed32-wrap32 _ (shr_z-Fits (signed32 (u32 d)) x _ (signed32-Fits (u32 d) (omega arith))),
  ground arith,
  signed64-wrap64 _ (shr_z-Fits (signed64 d) x _ (signed64-Fits d hd)),
)

-- The 32-bit operations clear the upper half of the destination.
pub alu32_op-lt : (a : Alu) (d x : ℕ) {r : ℕ} → alu32_op a d x ≡ ok r → r < 2 ^ 32
unfolding alu32_op
alu32_op-lt Alu.add d x h = ground arith
alu32_op-lt Alu.div d x h = ground (arith, div-le_self (u32 d) (u32 x))
alu32_op-lt Alu.or d x h = ground (arith, bit_or-lt 32 (u32 d) (u32 x))
alu32_op-lt Alu.and d x h = ground (arith, bit_and-le_right (u32 d) (u32 x))
alu32_op-lt Alu.rsh d x h = ground (arith, div-le_self (u32 d) (2 ^ u32 x))
alu32_op-lt Alu.modulo d x h = ground arith
alu32_op-lt Alu.xor d x h = ground (arith, bit_xor-lt 32 (u32 d) (u32 x))
alu32_op-lt Alu.arsh d x h = ground (arith, wrap32-lt (shr_z (signed32 (u32 d)) x))
alu32_op-lt _ d x h = ground arith

-- Dividing a 32-bit register, or taking its remainder, by a register whose low half is zero and
-- whose high half is not passes the test for zero and is then undefined.
pub low_half_zero-undefined :
    (vm : Vm) (f : Frame) (a : Alu) (i : Inst) (s : State) (d x : ℕ)
    → (a ≡ Alu.div) ⊎ (a ≡ Alu.modulo)
    → get_elem? s.regs i.dst ≡ some d
    → get_elem? s.regs i.src ≡ some x
    → x ≢ 0
    → u32 x ≡ 0
    → exec_op vm f (Op.alu32 a Operand.reg) i s ≡ stop undefined
unfolding exec_op check_divisor alu32_op
low_half_zero-undefined vm f a i s d x h ed ex n z = elim h [
  | inl e ↦ rw (e, ex, ed) (ground arith)
  | inr e ↦ rw (e, ex, ed) (ground arith)
]

-- The 64-bit division by a register ends the run with -1 if the register is zero, and otherwise
-- divides by the immediate of the instruction, which is undefined where that is zero.
pub div64_reg_by_imm :
    (vm : Vm) (f : Frame) (i : Inst) (s : State) (d x : ℕ)
    → get_elem? s.regs i.dst ≡ some d
    → get_elem? s.regs i.src ≡ some x
    → exec_op vm f (Op.alu64 Alu.div Operand.reg) i s ≡ (
        if x == 0
        then stop rejected
        else if sext32 i.imm == 0
        then stop undefined
        else ok (record s { regs = set s.regs i.dst (u64 (d / sext32 i.imm)) }))
unfolding exec_op check_divisor alu64_op
div64_reg_by_imm vm f i s d x ed ex = rw (ex, ed) (ground arith)
