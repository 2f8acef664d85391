-- ===== src/Shipped/TestCve.antt =====
-- The program `test_cve` against its source, and the function that it mends.
use rapid_patch_runtime_ae.Common.{
  ℕ, ◌+◌, ◌-◌, ◌*◌, ◌/◌, ◌^◌, ◌≤◌, ◌<◌, ◌≡◌, refl, arith, List, [], ◌∷◌, true, false, u64, u32, ap,
  Bool, Option, none, ◌==◌, ◌≢◌, ◌⊎◌, ◌&&◌, some, inl, inr, Bool-cases, length, if◌then◌else◌,
}
use rapid_patch_runtime_ae.Common.Int.{pos, signed32, lt_z, le_z}
use rapid_patch_runtime_ae.Vm.Inst.{decode, Cond}
use rapid_patch_runtime_ae.Vm.Memory.{Memory, load}
use rapid_patch_runtime_ae.Vm.State.{Frame, State, ok, returned, ended}
use rapid_patch_runtime_ae.Vm.Alu.{alu64_op, check_divisor, holds}
use rapid_patch_runtime_ae.Vm.Step.{step, exec_op, exec_load, exec_jump}
use rapid_patch_runtime_ae.Vm.Run.{entry, ebpf_vm_exec}
use rapid_patch_runtime_ae.Shipped.Runs.{steps, steps-add, ebpf_vm_exec-steps, twelve_registers}
use rapid_patch_runtime_ae.Shipped.Programs.{test_cve, machine_of}
use rapid_patch_runtime_ae.Shipped.Sources.{fix_bug, set_return, test_dynamic_bug}
use rapid_patch_runtime_ae.Patch.Context.{Context}
use rapid_patch_runtime_ae.Patch.Lookup.{get_dynamic_patch_by_bpkt}
use rapid_patch_runtime_ae.Dispatch.Points.{StackContext, run_patch_here, op_of, code_of}

-- The state at an instruction, by the registers that the program uses.
module _ (f : Frame) (m : Memory) (r3 r4 r5 r6 r7 r8 r9 r10 r11 : ℕ) where
  abbrev at : ℕ → ℕ → ℕ → ℕ → State
  at pc r0 r1 r2 = record {
    regs = r0 ∷ r1 ∷ r2 ∷ r3 ∷ r4 ∷ r5 ∷ r6 ∷ r7 ∷ r8 ∷ r9 ∷ r10 ∷ r11 ∷ [];
    pc = pc;
    memory = m;
  }

  -- The number less 2001, in 32 bits.
  abbrev less : ℕ → ℕ
  less v = u32 (v + 2 ^ 32 - 2001)

  read_number :
      (r0 r2 p v : ℕ)
      → p < 2 ^ 32
      → v < 2 ^ 32
      → load m p 4 ≡ some v
      → steps (machine_of test_cve) f 6 (at 0 r0 p r2) ≡ ok (at 6 1 (less v) 3000)
  unfolding steps step exec_op decode exec_load alu64_op check_divisor
  read_number r0 r2 p v short small read =
      let address : u32 (u64 (p + 0)) ≡ p = omega arith in
      let shifted : u64 (u64 (u64 (u64 (u64 (u64 v + (2 ^ 64 - 2001))) * 2 ^ 32)) / 2 ^ 32)
          ≡ less v =
        omega arith in
      rw (address, read, shifted) refl

  taken :
      (x : ℕ)
      → holds Cond.jgt 3000 x ≡ true
      → steps (machine_of test_cve) f 2 (at 6 1 x 3000) ≡ ok (at 9 (2 ^ 32) x 3000)
  unfolding steps step exec_op decode exec_jump alu64_op check_divisor
  taken x h = rw h refl

  not_taken :
      (x : ℕ)
      → holds Cond.jgt 3000 x ≡ false
      → steps (machine_of test_cve) f 3 (at 6 1 x 3000) ≡ ok (at 9 0 x 3000)
  unfolding steps step exec_op decode exec_jump alu64_op check_divisor
  not_taken x h = rw h refl

  -- The verdict as the source states it.
  less_iff : (v : ℕ) → v < 2 ^ 32 → fix_bug v ≡ (if holds Cond.jgt 3000 (less v) then 2 ^ 32 else 0)
  unfolding fix_bug set_return holds
  less_iff v small = ground arith

  -- The whole run from the entry.
  run :
      (r0 r2 p v : ℕ)
      → p < 2 ^ 32
      → v < 2 ^ 32
      → load m p 4 ≡ some v
      → (n : ℕ) × (n ≤ 9)
        × (steps (machine_of test_cve) f n (at 0 r0 p r2) ≡ ok (at 9 (fix_bug v) (less v) 3000))
  run r0 r2 p v short small read =
      let begin = read_number r0 r2 p v short small read in
      let verdict = less_iff v small in
      elim (Bool-cases (holds Cond.jgt 3000 (less v))) [
        | inl low ↦ (
          8,
          omega arith,
          rw (verdict, low)
              (steps-add (machine_of test_cve) f 6 2 _ _ _ begin (taken (less v) low)),
        )
        | inr high ↦ (
          9,
          omega arith,
          rw (verdict, high)
              (steps-add (machine_of test_cve) f 6 3 _ _ _ begin (not_taken (less v) high)),
        )
      ]

-- Run by the interpreter on a frame whose first word is `v`, whatever the registers hold before,
-- the program `test_cve` returns what the filter `fix_bug` of its source returns.
test_cve-fix_bug :
    (f : Frame) (regs : List ℕ) (m : Memory) (v : ℕ)
    → length regs ≡ 12
    → f.mem < 2 ^ 32
    → v < 2 ^ 32
    → load m f.mem 4 ≡ some v
    → ebpf_vm_exec (machine_of test_cve) f regs m ≡ ended (returned (fix_bug v))
unfolding entry step exec_op decode
test_cve-fix_bug f regs m v count short small read =
    let (r0, r1, r2, r3, r4, r5, r6, r7, r8, r9, r10, r11, e) = twelve_registers regs count in
    let r1_set : u64 f.mem ≡ f.mem = omega arith in
    let (n, few, ran) =
      run f m r3 r4 r5 r6 r7 r8 r9 (u64 (f.stack + 128)) r11 r0 r2 f.mem v short small read in
    ebpf_vm_exec-steps (machine_of test_cve) f n regs m
      (at f m r3 r4 r5 r6 r7 r8 r9 (u64 (f.stack + 128)) r11 9 (fix_bug v)
        (less f m r3 r4 r5 r6 r7 r8 r9 (u64 (f.stack + 128)) r11 v) 3000)
      (returned (fix_bug v)) (rw (e, r1_set) ran) refl (omega arith)

-- What a call of `test_dynamic_bug` at whose start `run_patch_here` has run returns, with the frame
-- that it left: the saved `r0` if it took the exception over and goes on at the caller, the
-- function's own result if it did not; `none` if it goes on elsewhere.
abbrev pub returned_by : StackContext → Bool × StackContext → Option ℕ
returned_by ctx (handled, after) =
    if handled
    then (if after.pc == ctx.lr then some after.r0 else none)
    else some (test_dynamic_bug after.r0)

-- The verdict of `fix_bug` as the frame shows it.
verdict :
    (v : ℕ)
    → ((op_of (fix_bug v) ≡ 1) × (code_of (fix_bug v) ≡ 0) × (lt_z (pos 5000) (signed32 v) ≡ false))
      ⊎ ((op_of (fix_bug v) ≡ 0)
          × (test_dynamic_bug v ≡ (if lt_z (pos 5000) (signed32 v) then 2 ^ 32 - 1 else 0)))
unfolding fix_bug set_return test_dynamic_bug
verdict v = elim (Bool-cases (le_z (signed32 v) (pos 5000) && lt_z (pos 2000) (signed32 v))) [
  | inl between ↦ inl (rw between refl, rw between refl, ground arith)
  | inr outside ↦ inr (rw outside refl, ground arith)
]

-- Under debug monitor breakpoints, with the program `test_cve` behind the breakpoint at the start of
-- `test_dynamic_bug`, run by the interpreter on a frame whose first word is the argument:
-- the run of the program returns a verdict, and with it `run_patch_here` makes the call return -1
-- exactly for the numbers above 5000, and 0 for the others. (The firmware's own loader of
-- the program has it compiled instead.)
pub test_cve-mends :
    (run_ebpf_filter : ℕ → StackContext → ℕ × StackContext) (c : Context) (ctx : StackContext)
    (patch : ℕ) (f : Frame) (regs : List ℕ) (m : Memory)
    → length regs ≡ 12
    → f.mem < 2 ^ 32
    → ctx.r0 < 2 ^ 32
    → load m f.mem 4 ≡ some ctx.r0
    → get_dynamic_patch_by_bpkt c ctx.pc ≡ some patch
    → patch ≢ 0
    → ((ret : ℕ)
        → ebpf_vm_exec (machine_of test_cve) f regs m ≡ ended (returned ret)
        → run_ebpf_filter patch ctx ≡ (ret, ctx))
    → (done : Bool × StackContext) × (run_patch_here run_ebpf_filter c ctx ≡ some done)
      × (returned_by ctx done ≡ some (if lt_z (pos 5000) (signed32 ctx.r0) then 2 ^ 32 - 1 else 0))
unfolding run_patch_here
test_cve-mends run_ebpf_filter c ctx patch f regs m count short small read found n interprets =
    let exec = test_cve-fix_bug f regs m ctx.r0 count short small read in
    let ran = interprets (fix_bug ctx.r0) exec in
    let p0 : (patch == 0) ≡ false = ground arith in
    elim (verdict ctx.r0) [
      | inl (drops, code, below) ↦ (
        (true, record ctx { r0 = 0; pc = ctx.lr }),
        rw (found, p0, ran, drops, code) refl,
        let same : (ctx.lr == ctx.lr) ≡ true = ground arith in rw (same, below) refl,
      )
      | inr (goes_on, result) ↦ ((false, ctx), rw (found, p0, ran, goes_on) refl, ap some result)
    ]
