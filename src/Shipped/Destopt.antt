-- ===== src/Shipped/Destopt.antt =====
-- One round of the loop in the program `amnesia33_cve_2020_17445`.
use rapid_patch_runtime_ae.Common.{
  ℕ, zero, suc, ◌+◌, ◌-◌, ◌*◌, ◌%◌, ◌^◌, ◌<◌, ◌≡◌, refl, arith, [], ◌∷◌, Bool, true, false, u64,
  u32, some, ◌==◌, if◌then◌else◌, bit_or, bit_and,
}
use rapid_patch_runtime_ae.Common.Bits.{bit_and_mask}
use rapid_patch_runtime_ae.Vm.Inst.{decode, Cond}
use rapid_patch_runtime_ae.Vm.Memory.{Memory, load}
use rapid_patch_runtime_ae.Vm.State.{Frame, State, ok}
use rapid_patch_runtime_ae.Vm.Alu.{alu64_op, check_divisor, holds, jump_imm}
use rapid_patch_runtime_ae.Vm.Step.{step, exec_op, exec_load, exec_jump, exec_lddw, bounds_check}
use rapid_patch_runtime_ae.Shipped.Runs.{steps}
use rapid_patch_runtime_ae.Shipped.Programs.{amnesia33_cve_2020_17445, machine_of}

-- Whether each length of a header is shifted and completed as the source's sum is.
lengths_agree : ℕ → Bool
lengths_agree zero = true
lengths_agree (suc d) =
    let others = lengths_agree d in if bit_or (d * 8) 6 == d * 8 + 6 then others else false

header_length_under :
    (bound d : ℕ) → d < bound → lengths_agree bound ≡ true → bit_or (d * 8) 6 ≡ d * 8 + 6
unfolding lengths_agree
header_length_under zero d less agree = absurd (omega arith)
header_length_under (suc bound) d less agree = ground (arith, header_length_under bound d)

header_length : (d : ℕ) → d < 256 → bit_or (d * 8) 6 ≡ d * 8 + 6
unfolding lengths_agree
header_length d small = header_length_under 256 d small refl

-- The registers that the program leaves alone are parameters.
module _ (f : Frame) (m : Memory) (r8 r9 r10 r11 : ℕ) where
  abbrev pub at : ℕ → ℕ → ℕ → ℕ → ℕ → ℕ → ℕ → ℕ → ℕ → State
  at pc r0 r1 r2 r3 r4 r5 r6 r7 = record {
    regs = r0 ∷ r1 ∷ r2 ∷ r3 ∷ r4 ∷ r5 ∷ r6 ∷ r7 ∷ r8 ∷ r9 ∷ r10 ∷ r11 ∷ [];
    pc = pc;
    memory = m;
  }

  pub read_option :
      (r0 len option ptr r4 r5 r6 r7 b : ℕ)
      → option + 1 < 2 ^ 64
      → b < 256
      → load m (u32 (option + 1)) 1 ≡ some b
      → steps (machine_of amnesia33_cve_2020_17445) f 6 (at 7 r0 len option ptr r4 r5 r6 r7)
        ≡ ok (at 15 (2 ^ 32) len option ptr 0xffffffff (b + 2) r6 ((b + 2) % 256))
  unfolding steps step exec_op decode exec_load alu64_op check_divisor exec_lddw bounds_check
  read_option r0 len option ptr r4 r5 r6 r7 b short small read =
      let address : u32 (u64 (option + 1)) ≡ u32 (option + 1) = omega arith in
      rw (address, read) (ground (arith, bit_and_mask 8 (b + 2)))

  pub no_option :
      (len option ptr r5 r6 optlen : ℕ)
      → holds Cond.jeq optlen 0 ≡ true
      → steps
          (machine_of amnesia33_cve_2020_17445)
          f
          2
          (at 15 (2 ^ 32) len option ptr 0xffffffff r5 r6 optlen)
        ≡ ok (at 34 0x1_ffff_ffff len option ptr 0xffffffff r5 r6 optlen)
  unfolding steps step exec_op decode exec_jump jump_imm alu64_op check_divisor
  no_option len option ptr r5 r6 optlen h = rw h refl

  pub add_option :
      (len option ptr r5 r6 optlen : ℕ)
      → holds Cond.jeq optlen 0 ≡ false
      → steps
          (machine_of amnesia33_cve_2020_17445)
          f
          8
          (at 15 (2 ^ 32) len option ptr 0xffffffff r5 r6 optlen)
        ≡ ok (
            at 23
              (2 ^ 32)
              len
              option
              (u32 ptr)
              0xffffffff
              r5
              (u64 (ptr + optlen))
              (u32 (ptr + optlen)))
  unfolding steps step exec_op decode exec_jump jump_imm alu64_op check_divisor
  add_option len option ptr r5 r6 optlen h = rw h (ground arith)

  pub wrapped :
      (len option low r5 r6 sum : ℕ)
      → holds Cond.jge low sum ≡ true
      → steps
          (machine_of amnesia33_cve_2020_17445)
          f
          2
          (at 23 (2 ^ 32) len option low 0xffffffff r5 r6 sum)
        ≡ ok (at 34 0x1_ffff_ffff len option low 0xffffffff r5 r6 sum)
  unfolding steps step exec_op decode exec_jump jump_imm alu64_op check_divisor
  wrapped len option low r5 r6 sum h = rw h refl

  pub next_option :
      (len option low b r6 sum : ℕ)
      → r6 < 2 ^ 64
      → b < 256
      → holds Cond.jge low sum ≡ false
      → steps
          (machine_of amnesia33_cve_2020_17445)
          f
          9
          (at 23 (2 ^ 32) len option low 0xffffffff (b + 2) r6 sum)
        ≡ ok (
            at 32 0
              (u64 (len + 2 ^ 64 - (b + 2)))
              (u64 (option + (b + 2) % 256))
              r6
              0
              (u64 (len + 2 ^ 64 - (b + 2)) % 256)
              r6
              sum)
  unfolding steps step exec_op decode exec_jump jump_imm alu64_op check_divisor
  next_option len option low b r6 sum short small h =
      let left = u64 (len + 2 ^ 64 - (b + 2)) in
      let mask : u64 (bit_and (b + 2) 255) ≡ (b + 2) % 256 =
        omega (arith, bit_and_mask 8 (b + 2)) in
      let mask_left : u64 (bit_and (u64 (u64 left)) 255) ≡ left % 256 =
        omega (arith, bit_and_mask 8 (u64 (u64 left))) in
      rw h (rw (mask, mask_left) (ground arith))

  pub again :
      (len option ptr left r6 r7 : ℕ)
      → holds Cond.jne left 0 ≡ true
      → steps (machine_of amnesia33_cve_2020_17445) f 1 (at 32 0 len option ptr 0 left r6 r7)
        ≡ ok (at 7 0 len option ptr 0 left r6 r7)
  unfolding steps step exec_op decode exec_jump jump_imm
  again len option ptr left r6 r7 h = rw h refl

  pub done :
      (len option ptr left r6 r7 : ℕ)
      → holds Cond.jne left 0 ≡ false
      → steps (machine_of amnesia33_cve_2020_17445) f 2 (at 32 0 len option ptr 0 left r6 r7)
        ≡ ok (at 34 0 len option ptr 0 left r6 r7)
  unfolding steps step exec_op decode exec_jump jump_imm alu64_op check_divisor
  done len option ptr left r6 r7 h = rw h refl

  pub fall_through :
      (len option ptr left r6 r7 : ℕ)
      → holds Cond.jne left 0 ≡ false
      → steps (machine_of amnesia33_cve_2020_17445) f 1 (at 32 0 len option ptr 0 left r6 r7)
        ≡ ok (at 33 0 len option ptr 0 left r6 r7)
  unfolding steps step exec_op decode exec_jump jump_imm
  fall_through len option ptr left r6 r7 h = rw h refl

  -- The instructions before the loop: the length of the header is `8 * d + 6`.
  pub begin :
      (r0 p r2 r3 r4 r5 r6 r7 header ptr d : ℕ)
      → p + 16 < 2 ^ 32
      → header < 2 ^ 32
      → ptr < 2 ^ 32
      → d < 256
      → load m p 4 ≡ some header
      → load m (p + 8) 4 ≡ some ptr
      → load m (u32 (header + 1)) 1 ≡ some d
      → steps (machine_of amnesia33_cve_2020_17445) f 7 (at 0 r0 p r2 r3 r4 r5 r6 r7)
        ≡ ok (at 7 r0 (d * 8 + 6) (header + 2) (ptr + 2) r4 r5 r6 r7)
  unfolding steps step exec_op decode exec_load alu64_op check_divisor bounds_check
  begin r0 p r2 r3 r4 r5 r6 r7 header ptr d room h32 p32 small read_header read_ptr read =
      let first : u32 (u64 (p + 0)) ≡ p = omega arith in
      let second : u32 (u64 (p + 8)) ≡ p + 8 = omega arith in
      let width : u64 header ≡ header = omega arith in
      let third : u32 (u64 (header + 1)) ≡ u32 (header + 1) = omega arith in
      let eight : u64 (u64 (u64 d * 8)) ≡ d * 8 = omega arith in
      rw (first, read_header)
        (rw (second, read_ptr)
          (rw (width, third, read) (rw (eight, header_length d small) (ground arith))))
