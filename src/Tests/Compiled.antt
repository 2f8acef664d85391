-- ===== src/Tests/Compiled.antt =====
-- The theorems on the just-in-time compiler (libebpf/src/jit_thumb2.c) at small programs.
use rapid_patch_runtime_ae.Common.{
  ℕ, ◌+◌, ◌-◌, ◌^◌, ◌≤◌, ◌≡◌, ◌≢◌, refl, arith, List, [], ◌∷◌, get_or, inl, inr, true, some,
}
use rapid_patch_runtime_ae.Vm.Inst.{Inst, Alu, Cond, Operand, cond_bits}
use rapid_patch_runtime_ae.Jit.Cases.{Program}
use rapid_patch_runtime_ae.Vm.Inst.{select, labels, encode, decode}
use rapid_patch_runtime_ae.Jit.Emit.Registers.{emit2, emit4, bpf2a32, bpf2a32_rows, stack_offset}
use rapid_patch_runtime_ae.Jit.Emit.Basic.{emit_sub_imm, emit_strd_i, emit_cmp_reg}
use rapid_patch_runtime_ae.Jit.Emit.Moves.{
  emit_mov_reg, emit_mov_imm, emit_mov_reg64, emit_mov_se_imm64, emit_mov_i64, emit_a32_mov_reg,
  arm_bpf_put_reg64, arm_bpf_get_reg64, arm_bpf_get_reg32, arm_bpf_put_reg32,
}
use rapid_patch_runtime_ae.Jit.Emit.Jumps.{use_b4, emit_b, emit_b_cond, emit_jump, emit_cmp_cond}
use rapid_patch_runtime_ae.Jit.Cases.{
  bpf2a32_offset, epilogue_offset, build_mov, build_compare, build_jump, build_exit, build_ja,
}
use rapid_patch_runtime_ae.Jit.Build.{build_straight, build_op, build_inst}
use rapid_patch_runtime_ae.Jit.Compile.{
  code_bytes, write_offset, note_end, last_of, goes_on, build_prologue, build_body_from, build_body,
  body_start, pre_pass, pre_end, gen_pass,
}
use rapid_patch_runtime_ae.Jit.Layout.{second_pass, gen_pass-pre_end}
use rapid_patch_runtime_ae.Jit.Visits.{Visits, here, next}
use rapid_patch_runtime_ae.Jit.Sizes.{Fits}
use rapid_patch_runtime_ae.Jit.Distances.{emit_jump-none}
use rapid_patch_runtime_ae.Jit.Landing.{BranchesTo, jump-lands, exit-lands}
use rapid_patch_runtime_ae.Jit.Encode.Memory.{RegPair}
use rapid_patch_runtime_ae.Jit.Encode.Branch.{bw_t3}
use rapid_patch_runtime_ae.Jit.Emit.Alu.{emit_alu64_reg}
use rapid_patch_runtime_ae.Jit.Arm.{Arm}
use rapid_patch_runtime_ae.Jit.Constants.{Loads, emit_mov_imm-Loads}
use rapid_patch_runtime_ae.Jit.Sums.{Words, InRegisters, Computes, add64-Computes, sub64-Computes}
use rapid_patch_runtime_ae.Jit.Targets.{always, target_t3}
use rapid_patch_runtime_ae.Jit.WideBranch.{bw_t3-target}

-- r0 = 1; goto 3; r0 = 2; if (r0 != 7) goto 1; exit; exit
abbrev insts : List Inst
insts =
    record { opcode = 0xb7; dst = 0; src = 0; offset = 0; imm = 1 }
    ∷ record { opcode = 0x05; dst = 0; src = 0; offset = 1; imm = 0 }
    ∷ record { opcode = 0xb7; dst = 0; src = 0; offset = 0; imm = 2 }
    ∷ record { opcode = 0x55; dst = 0; src = 0; offset = 2 ^ 16 - 3; imm = 7 }
    ∷ record { opcode = 0x95; dst = 0; src = 0; offset = 0; imm = 0 }
    ∷ record { opcode = 0x95; dst = 0; src = 0; offset = 0; imm = 0 }
    ∷ []

abbrev nothing : Inst
nothing = record { opcode = 0; dst = 0; src = 0; offset = 0; imm = 0 }

abbrev program : Program
program = record {
  insts = λ i. get_or insts i nothing;
  inst_num = 6;
  helpers = λ i. 0;
  beyond = record { hi = 0; lo = 0 };
}

abbrev cleared : ℕ → ℕ
cleared k = 0

abbrev Reached : ℕ → ℕ → Type 0
Reached j k = Visits program (second_pass program cleared) 0 (body_start program) j k

-- Where the code of each instruction begins.
visit_1 : Reached 1 30
unfolding body_start code_bytes build_prologue emit4 emit_mov_reg emit_mov_imm bpf2a32 bpf2a32_rows
    stack_offset emit2 emit_sub_imm emit_mov_reg64 emit_strd_i pre_end pre_pass build_body
    build_body_from goes_on last_of note_end write_offset build_inst build_op build_straight
    build_mov emit_mov_se_imm64 emit_mov_i64 arm_bpf_put_reg64 emit_a32_mov_reg arm_bpf_get_reg32
    arm_bpf_put_reg32 build_ja bpf2a32_offset emit_b build_jump build_compare emit_cmp_cond
    emit_cmp_reg emit_jump emit_b_cond use_b4 build_exit epilogue_offset arm_bpf_get_reg64 select
    labels encode decode
visit_1 = next 0 26 1 30 refl refl (here 1 30)

visit_3 : Reached 3 36
unfolding body_start code_bytes build_prologue emit4 emit_mov_reg emit_mov_imm bpf2a32 bpf2a32_rows
    stack_offset emit2 emit_sub_imm emit_mov_reg64 emit_strd_i pre_end pre_pass build_body
    build_body_from goes_on last_of note_end write_offset build_inst build_op build_straight
    build_mov emit_mov_se_imm64 emit_mov_i64 arm_bpf_put_reg64 emit_a32_mov_reg arm_bpf_get_reg32
    arm_bpf_put_reg32 build_ja bpf2a32_offset emit_b build_jump build_compare emit_cmp_cond
    emit_cmp_reg emit_jump emit_b_cond use_b4 build_exit epilogue_offset arm_bpf_get_reg64 select
    labels encode decode
visit_3 = next 0 26 3 36 refl refl (next 1 30 3 36 refl refl (next 2 32 3 36 refl refl (here 3 36)))

visit_4 : Reached 4 50
unfolding body_start code_bytes build_prologue emit4 emit_mov_reg emit_mov_imm bpf2a32 bpf2a32_rows
    stack_offset emit2 emit_sub_imm emit_mov_reg64 emit_strd_i pre_end pre_pass build_body
    build_body_from goes_on last_of note_end write_offset build_inst build_op build_straight
    build_mov emit_mov_se_imm64 emit_mov_i64 arm_bpf_put_reg64 emit_a32_mov_reg arm_bpf_get_reg32
    arm_bpf_put_reg32 build_ja bpf2a32_offset emit_b build_jump build_compare emit_cmp_cond
    emit_cmp_reg emit_jump emit_b_cond use_b4 build_exit epilogue_offset arm_bpf_get_reg64 select
    labels encode decode
visit_4 =
    next 0 26 4 50 refl refl
      (next 1 30 4 50 refl refl (next 2 32 4 50 refl refl (next 3 36 4 50 refl refl (here 4 50))))

ending : pre_end program cleared ≡ 52
unfolding body_start code_bytes build_prologue emit4 emit_mov_reg emit_mov_imm bpf2a32 bpf2a32_rows
    stack_offset emit2 emit_sub_imm emit_mov_reg64 emit_strd_i pre_end pre_pass build_body
    build_body_from goes_on last_of note_end write_offset build_inst build_op build_straight
    build_mov emit_mov_se_imm64 emit_mov_i64 arm_bpf_put_reg64 emit_a32_mov_reg arm_bpf_get_reg32
    arm_bpf_put_reg32 build_ja bpf2a32_offset emit_b build_jump build_compare emit_cmp_cond
    emit_cmp_reg emit_jump emit_b_cond use_b4 build_exit epilogue_offset arm_bpf_get_reg64 select
    labels encode decode
ending = refl

short : pre_end program cleared ≤ 52
short = omega (arith, ending)

small : Fits program 52
small = inl (omega arith)

low : (k : ℕ) → cleared k ≤ 52
low k = omega arith

jump-lands_example : BranchesTo program 52 cleared small low short 3 36 0x1 30
unfolding decode select labels encode
jump-lands_example =
    jump-lands program 52 cleared small low short 3 36 1 30 0x1 Cond.jne Operand.imm visit_3 visit_1
      (omega arith) refl refl refl refl

exit-lands_example :
    BranchesTo program 52 cleared small low short 4 50 always (pre_end program cleared)
unfolding decode select labels encode
exit-lands_example = exit-lands program 52 cleared small low short 4 50 visit_4 refl refl

gen_pass-pre_end_example :
    body_start program + code_bytes (gen_pass program cleared).code ≡ pre_end program cleared
gen_pass-pre_end_example = gen_pass-pre_end program 52 cleared small low short

abbrev state : Arm
state = record { regs = λ r. r + 5; carry = 0 }

emit_mov_imm-Loads_example : Loads (emit_mov_imm 9 0xdeadbeef) state 9 0xdeadbeef
emit_mov_imm-Loads_example = emit_mov_imm-Loads 9 0xdeadbeef state (omega arith) (omega arith)

abbrev full : Arm
full = record { regs = λ r. 2 ^ 32 - 1; carry = 0 }

words : Words full
words r = omega arith

abbrev r0 : RegPair
r0 = record { hi = 1; lo = 0 }

abbrev r6 : RegPair
r6 = record { hi = 5; lo = 4 }

r0_cpu : InRegisters r0
r0_cpu = (omega arith, omega arith, λ e. omega arith)

r6_cpu : InRegisters r6
r6_cpu = (omega arith, omega arith, λ e. omega arith)

apart : r0.lo ≢ r6.hi
apart e = omega arith

add64-Computes_example : Computes (emit_alu64_reg true r0 r6 Alu.add) full r0 r6 Alu.add
add64-Computes_example = add64-Computes full r0 r6 words r0_cpu r6_cpu apart

sub64-Computes_example : Computes (emit_alu64_reg true r0 r6 Alu.sub) full r0 r6 Alu.sub
sub64-Computes_example = sub64-Computes full r0 r6 words r0_cpu r6_cpu apart

bw_t3-target_example : target_t3 1000 (bw_t3 (2 ^ 32 - 600) 0xb) ≡ some (0xb, 404)
bw_t3-target_example =
    bw_t3-target 1000 (2 ^ 32 - 600) 0xb (omega arith) (omega arith, inr (omega arith, omega arith))

emit_jump-none_example : emit_jump 6 10 (cond_bits Cond.jslt) ≡ []
emit_jump-none_example = emit_jump-none 6 10 Cond.jslt refl
