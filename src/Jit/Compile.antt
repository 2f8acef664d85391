-- ===== src/Jit/Compile.antt =====
-- libebpf/src/jit_thumb2.c: the two passes of `jit_compile`. The code is what the second pass
-- copies to `jit_code`, from its start; `idx` counts its bytes.
use rapid_patch_runtime_ae.Common.{
  Bool, ℕ, zero, suc, ◌+◌, ◌*◌, [], ◌++◌, true, false, ◌==◌, if◌then◌else◌, ltb, length,
}
use rapid_patch_runtime_ae.Jit.Encode.Moves.{pushw_t2, popw_t2, callee_push_mask, callee_pop_mask}
use rapid_patch_runtime_ae.Jit.Emit.Registers.{Code, emit4, arm_fp, arm_sp, scratch_size, bpf2a32}
use rapid_patch_runtime_ae.Jit.Emit.Basic.{emit_sub_imm}
use rapid_patch_runtime_ae.Jit.Emit.Moves.{emit_mov_reg, emit_mov_imm, emit_mov_reg64}
use rapid_patch_runtime_ae.Jit.Cases.{Program, Pass, Ret, skip, failed}
use rapid_patch_runtime_ae.Jit.Build.{build_inst}

-- `EBPF_STACK_SIZE` of jit.h.
abbrev ebpf_stack_size : ℕ
ebpf_stack_size = 256

unfoldable pub build_prologue : Program → Code
build_prologue g =
    let bpf_r1 = bpf2a32 g.beyond 1 in
    let bpf_fp = bpf2a32 g.beyond 10 in
    emit4 (pushw_t2 callee_push_mask)
    ++ (emit_mov_reg arm_sp arm_fp
        ++ (emit_mov_imm bpf_r1.hi 0
            ++ (emit_sub_imm bpf_r1.lo arm_sp scratch_size
                ++ (emit_sub_imm arm_sp arm_sp ebpf_stack_size
                    ++ (emit_mov_reg64 true bpf_fp bpf_r1
                        ++ (emit_mov_reg 0 bpf_r1.lo ++ emit_mov_imm bpf_r1.hi 0))))))

unfoldable pub build_epilogue : Code
build_epilogue = emit_mov_reg arm_fp arm_sp ++ emit4 (popw_t2 callee_pop_mask)

unfoldable pub write_offset : (ℕ → ℕ) → ℕ → ℕ → ℕ → ℕ
write_offset offsets i v j = if j == i then v else offsets j

-- In the first pass the end of the instruction is noted.
unfoldable pub note_end : Pass → ℕ → ℕ → Pass
note_end p i idx = if p.need_gen then p else record p { offsets = write_offset p.offsets i idx }

pub record Body : Type 0 where
  pub code : Code
  pub after : Pass

unfoldable pub code_bytes : Code → ℕ
code_bytes code = 2 * length code

-- `i` after the instruction, before the loop increments it: a skip passes over the second half.
unfoldable pub last_of : Ret → ℕ → ℕ
last_of skip i = i + 1
last_of _ i = i

unfoldable pub goes_on : Ret → Bool
goes_on failed = false
goes_on _ = true

-- The loop, on fuel; `i` grows, so that `inst_num` rounds are enough. A failure ends it.
unfoldable pub build_body_from : Program → ℕ → Pass → ℕ → ℕ → Body
build_body_from g zero p i idx = record { code = []; after = p }
build_body_from g (suc fuel) p i idx =
    let b = build_inst g p idx i in
    let end = idx + code_bytes b.code in
    let noted = note_end p (last_of b.ret i) end in
    let rest = build_body_from g fuel noted (last_of b.ret i + 1) end in
    if ltb i g.inst_num
    then (if goes_on b.ret
        then record { code = b.code ++ rest.code; after = rest.after }
        else record { code = b.code; after = noted })
    else record { code = []; after = p }

unfoldable pub build_body : Program → Pass → ℕ → Body
build_body g p idx = build_body_from g g.inst_num p 0 idx

-- Where the body begins.
unfoldable pub body_start : Program → ℕ
body_start g = code_bytes (build_prologue g)

unfoldable pub pre_pass : Program → (ℕ → ℕ) → Body
pre_pass g offsets =
    build_body g (record { need_gen = false; offsets = offsets; epilogue = 0 }) (body_start g)

-- The place of the epilogue that the first pass computes.
unfoldable pub pre_end : Program → (ℕ → ℕ) → ℕ
pre_end g offsets = body_start g + code_bytes (pre_pass g offsets).code

unfoldable pub gen_pass : Program → (ℕ → ℕ) → Body
gen_pass g offsets =
    build_body g
      (record {
        need_gen = true;
        offsets = (pre_pass g offsets).after.offsets;
        epilogue = pre_end g offsets;
      })
      (body_start g)

-- The code of the program, when `offsets` has these contents before.
unfoldable pub jit_compile : Program → (ℕ → ℕ) → Code
jit_compile g offsets = build_prologue g ++ ((gen_pass g offsets).code ++ build_epilogue)
