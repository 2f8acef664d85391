-- ===== src/Jit/Sums.antt =====
-- The code that libebpf/src/jit_thumb2.c emits for 64-bit sums and differences of registers computes
-- what the interpreter computes.
use rapid_patch_runtime_ae.Common.{
  ℕ, ◌+◌, ◌-◌, ◌*◌, ◌^◌, ◌<◌, ◌≡◌, ◌≢◌, refl, ◌∙◌, sym, ap, arith, Bool, true, false, ◌==◌, [],
  ◌++◌, append_nil, append_assoc, u32, u64,
}
use rapid_patch_runtime_ae.Vm.Inst.{Alu}
use rapid_patch_runtime_ae.Vm.State.{ok}
use rapid_patch_runtime_ae.Vm.Alu.{alu64_op}
use rapid_patch_runtime_ae.Jit.CInt.{is_negative}
use rapid_patch_runtime_ae.Jit.Encode.Memory.{RegPair}
use rapid_patch_runtime_ae.Jit.Emit.Registers.{Code, emit4, tmp_reg_1, tmp_reg_2}
use rapid_patch_runtime_ae.Jit.Emit.Basic.{emit_add_reg, emit_sub_reg}
use rapid_patch_runtime_ae.Jit.Emit.Moves.{
  arm_bpf_get_reg32, arm_bpf_put_reg32, arm_bpf_get_reg64, arm_bpf_put_reg64,
}
use rapid_patch_runtime_ae.Jit.Emit.Alu.{emit_alu_op, emit_alu32_reg, emit_alu64_reg}
use rapid_patch_runtime_ae.Jit.Arm.{Arm, add_with_carry, run, with_reg-same, with_reg-other}
use rapid_patch_runtime_ae.Jit.Carries.{
  three, three_as_sum, subs_as_sum, sbc_as_sum, adds-exec, adc-exec, subs-exec, sbc-exec, three-run,
}

-- A pair in registers of the processor, not in the scratch space.
abbrev pub InRegisters : RegPair → Type 0
InRegisters p = (p.lo < 13) × (p.hi < 13) × (p.lo ≢ p.hi)

below : (r : ℕ) → r < 13 → is_negative r ≡ false
below r h = ground arith

itself : (r : ℕ) → (r == r) ≡ true
itself r = ground arith

-- Nothing is loaded or stored for a register of the processor.
emit_alu32_reg_lem :
    (dst src : ℕ) (is64 hi : Bool) (op : Alu)
    → dst < 13
    → src < 13
    → emit_alu32_reg dst src is64 hi op ≡ emit_alu_op op dst src is64 hi
unfolding emit_alu32_reg arm_bpf_get_reg32 arm_bpf_put_reg32
emit_alu32_reg_lem dst src is64 hi op hd hs =
    rw (below dst hd, below src hs, itself dst) (append_nil (emit_alu_op op dst src is64 hi))

arm_bpf_get_reg64-InRegisters :
    (p tmp : RegPair) → InRegisters p → arm_bpf_get_reg64 p tmp ≡ record { code = []; at = p }
unfolding arm_bpf_get_reg64
arm_bpf_get_reg64-InRegisters p tmp h = rw (below p.lo h.0) refl

arm_bpf_put_reg64-InRegisters : (p : RegPair) → InRegisters p → arm_bpf_put_reg64 p p ≡ []
unfolding arm_bpf_put_reg64
arm_bpf_put_reg64-InRegisters p h = rw (below p.lo h.0, itself p.lo, itself p.hi) refl

-- The code of a 64-bit operation on such pairs is that for the lower halves, then for the upper.
emit_alu64_reg-InRegisters :
    (dst src : RegPair) (op : Alu)
    → InRegisters dst
    → InRegisters src
    → emit_alu64_reg true dst src op
      ≡ emit_alu_op op dst.lo src.lo true false ++ emit_alu_op op dst.hi src.hi true true
unfolding emit_alu64_reg
emit_alu64_reg-InRegisters dst src op d s =
    rw
      (
        arm_bpf_get_reg64-InRegisters dst tmp_reg_1 d,
        arm_bpf_get_reg64-InRegisters src tmp_reg_2 s,
        arm_bpf_put_reg64-InRegisters dst d,
        emit_alu32_reg_lem dst.lo src.lo true false op d.0 s.0,
        emit_alu32_reg_lem dst.hi src.hi true true op d.1 s.1,
        append_nil,
      )
      refl

-- The 64-bit number in a pair.
abbrev pub value : Arm → RegPair → ℕ
value s p = s.regs p.hi * 2 ^ 32 + s.regs p.lo

-- The code computes the operation as the interpreter does, into the first pair, and leaves the other
-- registers as they are.
abbrev pub Computes : Code → Arm → RegPair → RegPair → Alu → Type 0
Computes code s dst src op =
    (t : Arm) × ((rest : Code) → run (code ++ rest) s ≡ run rest t)
    × ((i : ℕ) → alu64_op op (value s dst) (value s src) i ≡ ok (value t dst))
    × ((r : ℕ) → r ≢ dst.lo → r ≢ dst.hi → t.regs r ≡ s.regs r)

-- Registers hold words.
abbrev pub Words : Arm → Type 0
Words s = (r : ℕ) → s.regs r < 2 ^ 32

-- Two additions with carry, the lower halves before the upper ones.
module _ (s : Arm) (p : RegPair) (a b c h k : ℕ) (apart : p.lo ≢ p.hi) where
  abbrev low_done : Arm
  low_done = add_with_carry s p.lo a b c true

  abbrev both_done : Arm
  both_done = add_with_carry low_done p.hi h k low_done.carry false

  both_done-value : value both_done p ≡ u64 ((h + k) * 2 ^ 32 + (a + b + c))
  both_done-value =
      let upper = with_reg-same low_done p.hi (u32 (h + k + low_done.carry)) in
      let lower =
        with_reg-other low_done p.hi (u32 (h + k + low_done.carry)) p.lo apart
        ∙ with_reg-same s p.lo (u32 (a + b + c)) in
      omega (arith, upper, lower)

  both_done-other : (r : ℕ) → r ≢ p.lo → r ≢ p.hi → both_done.regs r ≡ s.regs r
  both_done-other r x y =
      with_reg-other low_done p.hi (u32 (h + k + low_done.carry)) r y
      ∙ with_reg-other s p.lo (u32 (a + b + c)) r x

-- The code for a 64-bit sum of two eBPF registers that are kept in processor registers (`r0`, `r1`,
-- `r6` and the temporaries; the others are kept on the stack) adds as the interpreter does: executed
-- on any registers of 32 bits it leaves the sum in the destination and the other registers as they
-- were. Each pair is of two different registers below 13, and the lower register of the destination
-- is not the upper one of the source.
pub add64-Computes :
    (s : Arm) (dst src : RegPair)
    → Words s
    → InRegisters dst
    → InRegisters src
    → dst.lo ≢ src.hi
    → Computes (emit_alu64_reg true dst src Alu.add) s dst src Alu.add
unfolding emit_alu_op emit_add_reg alu64_op
add64-Computes s dst src words d e apart =
    let a = s.regs src.lo in
    let b = s.regs dst.lo in
    let t = add_with_carry s dst.lo a b 0 true in
    let u = add_with_carry t dst.hi (t.regs src.hi) (t.regs dst.hi) t.carry false in
    let low = emit4 (three 0xeb1 src.lo dst.lo dst.lo) in
    let high = emit4 (three 0xeb4 src.hi dst.hi dst.hi) in
    let goes : (rest : Code) → run ((low ++ high) ++ rest) s ≡ run rest u = λ rest.
      rw append_assoc (
        three-run src.lo dst.lo dst.lo s (omega arith) (omega arith) (omega arith) 0xeb1 t
          (omega arith) (omega arith)
          (adds-exec src.lo dst.lo dst.lo s (omega arith) (omega arith) (omega arith))
          (high ++ rest)
        ∙ three-run src.hi dst.hi dst.hi t (omega arith) (omega arith) (omega arith) 0xeb4 u
            (omega arith) (omega arith)
            (adc-exec src.hi dst.hi dst.hi t (omega arith) (omega arith) (omega arith)) rest) in
    let sh = with_reg-other s dst.lo (u32 (a + b + 0)) src.hi (λ x. apart (sym x)) in
    let dh = with_reg-other s dst.lo (u32 (a + b + 0)) dst.hi (λ x. d.2 (sym x)) in
    let result = both_done-value s dst a b 0 (t.regs src.hi) (t.regs dst.hi) d.2 in
    rw
      (
        emit_alu64_reg-InRegisters dst src Alu.add d e,
        three_as_sum 0xeb1 src.lo dst.lo dst.lo (omega arith) (omega arith) (omega arith),
        three_as_sum 0xeb4 src.hi dst.hi dst.hi (omega arith) (omega arith) (omega arith),
      )
      (
        u,
        goes,
        λ i. ap (λ (v : ℕ). ok v) (omega (arith, result, sh, dh)),
        both_done-other s dst a b 0 (t.regs src.hi) (t.regs dst.hi) d.2,
      )

-- The code for a 64-bit difference of two eBPF registers that are kept in processor registers (`r0`,
-- `r1`, `r6` and the temporaries; the others are kept on the stack) subtracts as the interpreter
-- does: executed on any registers of 32 bits it leaves the difference in the destination and the
-- other registers as they were. Each pair is of two different registers below 13, and the lower
-- register of the destination is not the upper one of the source.
pub sub64-Computes :
    (s : Arm) (dst src : RegPair)
    → Words s
    → InRegisters dst
    → InRegisters src
    → dst.lo ≢ src.hi
    → Computes (emit_alu64_reg true dst src Alu.sub) s dst src Alu.sub
unfolding emit_alu_op emit_sub_reg alu64_op
sub64-Computes s dst src words d e apart =
    let a = s.regs dst.lo in
    let b = 2 ^ 32 - 1 - s.regs src.lo in
    let t = add_with_carry s dst.lo a b 1 true in
    let k = 2 ^ 32 - 1 - t.regs src.hi in
    let u = add_with_carry t dst.hi (t.regs dst.hi) k t.carry false in
    let low = emit4 (three 0xebb dst.lo dst.lo src.lo) in
    let high = emit4 (three 0xeb6 dst.hi dst.hi src.hi) in
    let goes : (rest : Code) → run ((low ++ high) ++ rest) s ≡ run rest u = λ rest.
      rw append_assoc (
        three-run dst.lo dst.lo src.lo s (omega arith) (omega arith) (omega arith) 0xebb t
          (omega arith) (omega arith)
          (subs-exec dst.lo dst.lo src.lo s (omega arith) (omega arith) (omega arith))
          (high ++ rest)
        ∙ three-run dst.hi dst.hi src.hi t (omega arith) (omega arith) (omega arith) 0xeb6 u
            (omega arith) (omega arith)
            (sbc-exec dst.hi dst.hi src.hi t (omega arith) (omega arith) (omega arith)) rest) in
    let sh = with_reg-other s dst.lo (u32 (a + b + 1)) src.hi (λ x. apart (sym x)) in
    let dh = with_reg-other s dst.lo (u32 (a + b + 1)) dst.hi (λ x. d.2 (sym x)) in
    let result = both_done-value s dst a b 1 (t.regs dst.hi) k d.2 in
    rw
      (
        emit_alu64_reg-InRegisters dst src Alu.sub d e,
        subs_as_sum dst.lo src.lo (omega arith) (omega arith),
        sbc_as_sum dst.hi src.hi (omega arith) (omega arith),
      )
      (
        u,
        goes,
        λ i.
            ap (λ (v : ℕ). ok v)
              (omega
                (arith, result, sh, dh, words src.lo, words src.hi, words dst.lo, words dst.hi)),
        both_done-other s dst a b 1 (t.regs dst.hi) k d.2,
      )
