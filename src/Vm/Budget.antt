-- ===== src/Vm/Budget.antt =====
-- The instruction budget of `ebpf_vm_exec`: every run ends, and a run that would go on for ever is
-- cut off.
use rapid_patch_runtime_ae.Common.{
  ℕ, zero, suc, ◌+◌, ◌≤◌, ◌≡◌, ◌≢◌, refl, arith, List, ◌∷◌, ltb, Bool-cases, inl, inr,
}
use rapid_patch_runtime_ae.Vm.Inst.{Inst, Op, encode, decode}
use rapid_patch_runtime_ae.Vm.State.{Vm, Frame, State, ok, Result-cases, iter_limit, out_of_fuel}
use rapid_patch_runtime_ae.Vm.Memory.{Memory}
use rapid_patch_runtime_ae.Vm.Step.{step, exec_op}
use rapid_patch_runtime_ae.Vm.Run.{max_iters, iters_check, loop, entry, ebpf_vm_exec}

module _ (vm : Vm) (f : Frame) where
  -- Two runs with enough fuel for the rest of the budget end alike, and do end.
  loop_enough :
      (n m tick : ℕ) (s : State)
      → max_iters + 2 ≤ n + tick
      → max_iters + 2 ≤ m + tick
      → tick ≤ max_iters + 1
      → (loop vm f n tick s ≡ loop vm f m tick s) × (loop vm f n tick s ≢ out_of_fuel)
  unfolding loop iters_check
  loop_enough zero m tick s h k b = absurd (omega arith)
  loop_enough (suc n) zero tick s h k b = absurd (omega arith)
  loop_enough (suc n) (suc m) tick s h k b = elim (Result-cases (step vm f s)) [
    | inr (o, e) ↦ rw (e, loop) (refl, λ x. cc)
    | inl (t, e) ↦
        rw (e, loop)
          (elim (Bool-cases (ltb max_iters tick)) [
            | inl over ↦ rw over (refl, λ x. cc)
            | inr within ↦ rw within (ground (arith, loop_enough n m (tick + 1) t))
          ])
  ]

  -- A run whose every round goes on is cut off by the budget.
  loop-iter_limit :
      (P : State → Type 0)
      → ((s : State) → P s → (t : State) × (step vm f s ≡ ok t) × P t)
      → (fuel tick : ℕ) (s : State) → max_iters + 2 ≤ fuel + tick
      → tick ≤ max_iters + 1
      → P s
      → loop vm f fuel tick s ≡ iter_limit
  unfolding loop iters_check
  loop-iter_limit P next zero tick s h b p = absurd (omega arith)
  loop-iter_limit P next (suc fuel) tick s h b p =
      let (t, goes_on, q) = next s p in
      rw (goes_on, loop)
        (elim (Bool-cases (ltb max_iters tick)) [
          | inl over ↦ rw over refl
          | inr within ↦
              rw within (loop-iter_limit P next fuel (tick + 1) t (omega arith) (ground arith) q)
        ])

  -- `ebpf_vm_exec` ends on every program and every memory, after at most `MAX_ITERS + 2` rounds:
  -- no further fuel changes how it ends.
  pub ebpf_vm_exec_terminates :
      (regs : List ℕ) (m : Memory) (extra : ℕ)
      → (loop vm f (max_iters + 2 + extra) 0 (entry f regs m) ≡ ebpf_vm_exec vm f regs m)
        × (ebpf_vm_exec vm f regs m ≢ out_of_fuel)
  unfolding ebpf_vm_exec
  ebpf_vm_exec_terminates regs m extra = (
    (loop_enough (max_iters + 2 + extra) (max_iters + 2) 0 (entry f regs m) (omega arith)
        (omega arith) (omega arith)).0,
    (loop_enough (max_iters + 2) (max_iters + 2) 0 (entry f regs m) (omega arith) (omega arith)
        (omega arith)).1,
  )

abbrev pub jump_back : Inst
jump_back = record { opcode = encode Op.ja; dst = 0; src = 0; offset = 0xffff; imm = 0 }

jump_back-step :
    (rest : List Inst) (vm : Vm) (f : Frame) (regs : List ℕ) (m : Memory)
    → vm.insts ≡ jump_back ∷ rest
    → step vm f (entry f regs m) ≡ ok (entry f regs m)
unfolding step exec_op entry decode
jump_back-step rest vm f regs m e = rw (e, step)

-- A program that begins with a jump to itself is cut off, whatever follows it and whatever the
-- registers and the memory hold.
pub self_jump-iter_limit :
    (rest : List Inst) (vm : Vm) (f : Frame) (regs : List ℕ) (m : Memory)
    → vm.insts ≡ jump_back ∷ rest
    → ebpf_vm_exec vm f regs m ≡ iter_limit
unfolding ebpf_vm_exec
self_jump-iter_limit rest vm f regs m e =
    let s = entry f regs m in
    loop-iter_limit vm f (λ t. t ≡ s) (λ t p. (s, rw p (jump_back-step rest vm f regs m e), refl))
      (max_iters + 2) 0 s (omega arith) (omega arith) refl
