-- ===== src/Shipped/Runs.antt =====
-- Runs of several instructions in the loop of libebpf/src/ebpf_vm.c.
use rapid_patch_runtime_ae.Common.{
  ℕ, zero, suc, ◌+◌, ◌≤◌, ◌≡◌, sym, ◌∙◌, ap, arith, refl, ◌-◌, List, [], ◌∷◌, length, false, ltb,
  inl, inr, Bool-cases,
}
use rapid_patch_runtime_ae.Vm.State.{
  Vm, Frame, State, Result, Stop, ok, stop, returned, ended, iter_limit, ◌>>=◌, Result-cases,
}
use rapid_patch_runtime_ae.Vm.Memory.{Memory}
use rapid_patch_runtime_ae.Vm.Step.{step}
use rapid_patch_runtime_ae.Vm.Run.{loop, iters_check, max_iters, entry, ebpf_vm_exec}

module _ (vm : Vm) (f : Frame) where
  -- `n` rounds, none of which ends the run.
  unfoldable pub steps : ℕ → State → Result State
  steps zero s = ok s
  steps (suc n) s = step vm f s >>= steps n

  -- One run after another.
  pub steps-add :
      (n k : ℕ) (s t u : State) → steps n s ≡ ok t → steps k t ≡ ok u → steps (n + k) s ≡ ok u
  unfolding steps
  steps-add zero k s t u first then =
      let e : 0 + k ≡ k = omega arith in let same : s ≡ t = cc in rw (e, same) then
  steps-add (suc n) k s t u first then = elim (Result-cases (step vm f s)) [
    | inl (s', one) ↦
        let e : suc n + k ≡ suc (n + k) = omega arith in
        rw (e, one) (steps-add n k s' t u (rw one at first) then)
    | inr (o, gone) ↦ absurd (let z = rw gone at first in cc)
  ]

  loop-suc :
      (k tick : ℕ) (s t : State)
      → step vm f s ≡ ok t
      → tick ≤ max_iters
      → loop vm f (suc k) tick s ≡ loop vm f k (tick + 1) t
  unfolding loop iters_check
  loop-suc k tick s t one within =
      let low : ltb max_iters tick ≡ false = ground arith in rw (one, loop, low) refl

  loop-steps :
      (n rest tick : ℕ) (s t : State) (o : Stop)
      → steps n s ≡ ok t
      → step vm f t ≡ stop o
      → tick + n ≤ max_iters + 1
      → loop vm f (suc (n + rest)) tick s ≡ ended o
  unfolding loop steps
  loop-steps zero rest tick s t o run last within =
      let same : s ≡ t = cc in rw (same, last, loop) refl
  loop-steps (suc n) rest tick s t o run last within = elim (Result-cases (step vm f s)) [
    | inl (s', one) ↦
        let fuel : suc n + rest ≡ suc (n + rest) = omega arith in
        loop-suc (suc n + rest) tick s s' one (omega arith)
        ∙ ap (λ k. loop vm f k (tick + 1) s') fuel
        ∙ loop-steps n rest (tick + 1) s' t o (rw one at run) last (omega arith)
    | inr (o', gone) ↦ absurd (let z = rw gone at run in cc)
  ]

  -- A run within the budget, and the instruction that ends it.
  pub ebpf_vm_exec-steps :
      (n : ℕ) (regs : List ℕ) (m : Memory) (t : State) (o : Stop)
      → steps n (entry f regs m) ≡ ok t
      → step vm f t ≡ stop o
      → n ≤ max_iters + 1
      → ebpf_vm_exec vm f regs m ≡ ended o
  unfolding ebpf_vm_exec
  ebpf_vm_exec-steps n regs m t o run last within =
      let rest = max_iters + 1 - n in
      let fuel : suc (n + rest) ≡ max_iters + 2 = omega arith in
      sym (ap (λ k. loop vm f k 0 (entry f regs m)) fuel)
      ∙ loop-steps n rest 0 (entry f regs m) t o run last (omega arith)

  -- More instructions than the budget, none of which ends the run.
  loop-limit :
      (n rest tick : ℕ) (s t : State)
      → steps n s ≡ ok t
      → tick + n ≡ max_iters + 2
      → tick ≤ max_iters + 1
      → loop vm f (n + rest) tick s ≡ iter_limit
  unfolding loop steps iters_check
  loop-limit zero rest tick s t run total within = absurd (omega arith)
  loop-limit (suc n) rest tick s t run total within = elim (Result-cases (step vm f s)) [
    | inr (o', gone) ↦ absurd (let z = rw gone at run in cc)
    | inl (s', one) ↦
        let fuel : suc n + rest ≡ suc (n + rest) = omega arith in
        ap (λ k. loop vm f k tick s) fuel ∙ elim (Bool-cases (ltb max_iters tick)) [
          | inl over ↦ rw (one, loop, over) refl
          | inr low ↦
              loop-suc (n + rest) tick s s' one (ground arith)
              ∙ loop-limit n rest (tick + 1) s' t (rw one at run) (omega arith) (ground arith)
        ]
  ]

  -- A run that is as long or longer.
  steps-prefix : (n k : ℕ) (s u : State) → steps (n + k) s ≡ ok u → (t : State) × (steps n s ≡ ok t)
  unfolding steps
  steps-prefix zero k s u run = (s, refl)
  steps-prefix (suc n) k s u run =
      let e : suc n + k ≡ suc (n + k) = omega arith in
      let run' : steps (suc (n + k)) s ≡ ok u = ap (λ j. steps j s) (sym e) ∙ run in
      elim (Result-cases (step vm f s)) [
        | inr (o', gone) ↦ absurd (let z = rw gone at run' in cc)
        | inl (s', one) ↦
            let (t, first) = steps-prefix n k s' u (rw one at run') in (t, rw one first)
      ]

  pub ebpf_vm_exec-limit :
      (n : ℕ) (regs : List ℕ) (m : Memory) (t : State)
      → steps n (entry f regs m) ≡ ok t
      → max_iters + 2 ≤ n
      → ebpf_vm_exec vm f regs m ≡ iter_limit
  unfolding ebpf_vm_exec
  ebpf_vm_exec-limit n regs m t run long =
      let budget = max_iters + 2 in
      let split : n ≡ budget + (n - budget) = omega arith in
      let (t', first) =
        steps-prefix budget (n - budget) (entry f regs m) t
          (ap (λ j. steps j (entry f regs m)) (sym split) ∙ run) in
      let fuel : budget + 0 ≡ budget = omega arith in
      sym (ap (λ k. loop vm f k 0 (entry f regs m)) fuel)
      ∙ loop-limit budget 0 0 (entry f regs m) t' first (omega arith) (omega arith)

  -- The run from a state returns `r` after at most `n` instructions that do not end it.
  abbrev pub Ends : ℕ → State → ℕ → Type 0
  Ends n s r =
      (k : ℕ) × (t : State) × (steps k s ≡ ok t) × (step vm f t ≡ stop (returned r)) × (k ≤ n)

  pub Ends-steps :
      (k n : ℕ) (s t : State) (r : ℕ) → steps k s ≡ ok t → Ends n t r → Ends (k + n) s r
  Ends-steps k n s t r first (k', u, then, last, few) =
      (k + k', u, steps-add k k' s t u first then, last, omega (arith, few))

  pub ebpf_vm_exec-Ends :
      (n : ℕ) (regs : List ℕ) (m : Memory) (r : ℕ)
      → Ends n (entry f regs m) r
      → n ≤ max_iters + 1
      → ebpf_vm_exec vm f regs m ≡ ended (returned r)
  ebpf_vm_exec-Ends n regs m r (k, t, run, last, few) within =
      ebpf_vm_exec-steps k regs m t (returned r) run last (omega arith)

-- The twelve registers by name.
pub twelve_registers :
    (regs : List ℕ)
    → length regs ≡ 12
    → (r0 r1 r2 r3 r4 r5 r6 r7 r8 r9 r10 r11 : ℕ) × (regs
        ≡ r0 ∷ r1 ∷ r2 ∷ r3 ∷ r4 ∷ r5 ∷ r6 ∷ r7 ∷ r8 ∷ r9 ∷ r10 ∷ r11 ∷ [])
twelve_registers (r0 ∷ r1 ∷ r2 ∷ r3 ∷ r4 ∷ r5 ∷ r6 ∷ r7 ∷ r8 ∷ r9 ∷ r10 ∷ r11 ∷ []) h =
    (r0, r1, r2, r3, r4, r5, r6, r7, r8, r9, r10, r11, refl)
twelve_registers _ h = absurd (omega (arith, h))
