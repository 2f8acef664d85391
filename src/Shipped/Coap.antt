-- ===== src/Shipped/Coap.antt =====
-- The program `zephyr_cve_10063` against its source.
use rapid_patch_runtime_ae.Common.{
  ℕ, ◌+◌, ◌*◌, ◌/◌, ◌^◌, ◌≤◌, ◌<◌, ◌≡◌, refl, arith, List, [], ◌∷◌, true, false, u64, u32, some,
  inl, inr, Bool-cases, length, if◌then◌else◌,
}
use rapid_patch_runtime_ae.Vm.Inst.{decode, Cond}
use rapid_patch_runtime_ae.Vm.Memory.{Memory, load}
use rapid_patch_runtime_ae.Vm.State.{Frame, State, ok, returned, ended}
use rapid_patch_runtime_ae.Vm.Alu.{alu64_op, check_divisor, holds, jump_imm}
use rapid_patch_runtime_ae.Vm.Step.{step, exec_op, exec_load, exec_jump, exec_lddw, bounds_check}
use rapid_patch_runtime_ae.Vm.Run.{entry, ebpf_vm_exec}
use rapid_patch_runtime_ae.Shipped.Runs.{steps, steps-add, ebpf_vm_exec-steps, twelve_registers}
use rapid_patch_runtime_ae.Shipped.Programs.{zephyr_cve_10063, machine_of}
use rapid_patch_runtime_ae.Shipped.Sources.{filter_option_len, set_return}

module _ (f : Frame) (m : Memory) (r3 r4 r5 r6 r7 r8 r9 r10 r11 : ℕ) where
  abbrev at : ℕ → ℕ → ℕ → ℕ → State
  at pc r0 r1 r2 = record {
    regs = r0 ∷ r1 ∷ r2 ∷ r3 ∷ r4 ∷ r5 ∷ r6 ∷ r7 ∷ r8 ∷ r9 ∷ r10 ∷ r11 ∷ [];
    pc = pc;
    memory = m;
  }

  read_address :
      (r0 r2 p d : ℕ)
      → p + 8 < 2 ^ 32
      → d < 2 ^ 32
      → load m (p + 4) 4 ≡ some d
      → steps (machine_of zephyr_cve_10063) f 4 (at 0 r0 p r2) ≡ ok (at 4 r0 (u32 (d + 5)) r2)
  unfolding steps step exec_op decode exec_load alu64_op check_divisor
  read_address r0 r2 p d short small read =
      let address : u32 (u64 (p + 4)) ≡ p + 4 = omega arith in
      let cut : u64 (u64 (u64 (u64 (u64 (u64 d + 5)) * 2 ^ 32)) / 2 ^ 32) ≡ u32 (d + 5) =
        omega arith in
      rw (address, read) (rw cut refl)

  read_number :
      (r0 r2 a v : ℕ)
      → a < 2 ^ 32
      → v < 2 ^ 16
      → load m a 2 ≡ some v
      → steps (machine_of zephyr_cve_10063) f 2 (at 4 r0 a r2) ≡ ok (at 7 r0 0xffffffea v)
  unfolding steps step exec_op decode exec_load exec_lddw bounds_check
  read_number r0 r2 a v short half read =
      let address : u32 (u64 (a + 0)) ≡ a = omega arith in
      let width : u64 v ≡ v = omega arith in rw (address, read) (rw width refl)

  long :
      (r0 v : ℕ)
      → holds Cond.jgt v 0xefff ≡ true
      → steps (machine_of zephyr_cve_10063) f 5 (at 7 r0 0xffffffea v)
        ≡ ok (at 14 0x1_ffff_ffea 0xffffffea v)
  unfolding steps step exec_op decode exec_jump alu64_op check_divisor jump_imm
  long r0 v h = rw (h, h) refl

  short_enough :
      (r0 v : ℕ)
      → holds Cond.jgt v 0xefff ≡ false
      → steps (machine_of zephyr_cve_10063) f 7 (at 7 r0 0xffffffea v) ≡ ok (at 14 0 0 v)
  unfolding steps step exec_op decode exec_jump alu64_op check_divisor jump_imm
  short_enough r0 v h = rw (h, h) refl

  -- The verdict as the source states it.
  long_iff :
      (v : ℕ)
      → v < 2 ^ 16
      → filter_option_len v ≡ (if holds Cond.jgt v 0xefff then 0x1_ffff_ffea else 0)
  unfolding filter_option_len set_return holds
  long_iff v small = ground arith

  -- The whole run from the entry.
  run :
      (r0 r2 p d v : ℕ)
      → p + 8 < 2 ^ 32
      → d < 2 ^ 32
      → v < 2 ^ 16
      → load m (p + 4) 4 ≡ some d
      → load m (u32 (d + 5)) 2 ≡ some v
      → (n : ℕ) × (n ≤ 13)
        × (last : ℕ) × (steps (machine_of zephyr_cve_10063) f n (at 0 r0 p r2)
            ≡ ok (at 14 (filter_option_len v) last v))
  run r0 r2 p d v short small half read_data read =
      let begin =
        steps-add (machine_of zephyr_cve_10063) f 4 2 _ _ _
          (read_address r0 r2 p d short small read_data)
          (read_number r0 r2 (u32 (d + 5)) v (omega arith) half read) in
      let verdict = long_iff v half in
      elim (Bool-cases (holds Cond.jgt v 0xefff)) [
        | inl high ↦ (
          11,
          omega arith,
          0xffffffea,
          rw (verdict, high)
              (steps-add (machine_of zephyr_cve_10063) f 6 5 _ _ _ begin (long r0 v high)),
        )
        | inr low ↦ (
          13,
          omega arith,
          0,
          rw (verdict, low)
              (steps-add (machine_of zephyr_cve_10063) f 6 7 _ _ _ begin (short_enough r0 v low)),
        )
      ]

-- Run by the interpreter on a frame whose word for `r1` is the address `d`, whatever the registers
-- hold before, with the 16-bit number `v` at `d + 5`, the program `zephyr_cve_10063` returns what
-- the filter of its source returns for that number.
pub zephyr_cve_10063-filter :
    (f : Frame) (regs : List ℕ) (m : Memory) (d v : ℕ)
    → length regs ≡ 12
    → f.mem + 8 < 2 ^ 32
    → d < 2 ^ 32
    → v < 2 ^ 16
    → load m (f.mem + 4) 4 ≡ some d
    → load m (u32 (d + 5)) 2 ≡ some v
    → ebpf_vm_exec (machine_of zephyr_cve_10063) f regs m ≡ ended (returned (filter_option_len v))
unfolding entry step exec_op decode
zephyr_cve_10063-filter f regs m d v count short small half read_data read =
    let (r0, r1, r2, r3, r4, r5, r6, r7, r8, r9, r10, r11, e) = twelve_registers regs count in
    let top = u64 (f.stack + 128) in
    let r1_set : u64 f.mem ≡ f.mem = omega arith in
    let (n, few, last, ran) =
      run f m r3 r4 r5 r6 r7 r8 r9 top r11 r0 r2 f.mem d v short small half read_data read in
    ebpf_vm_exec-steps (machine_of zephyr_cve_10063) f n regs m
      (at f m r3 r4 r5 r6 r7 r8 r9 top r11 14 (filter_option_len v) last v)
      (returned (filter_option_len v)) (rw (e, r1_set) ran) refl (omega arith)
