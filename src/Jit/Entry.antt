-- ===== src/Jit/Entry.antt =====
-- libebpf/src/jit.c: the memory of the compiler and its entry, as built with JIT_STATIC_MEM, where
-- the static buffer stands at a multiple of four.
use rapid_patch_runtime_ae.Common.{
  ℕ, zero, suc, ◌+◌, Option, none, some, false, ◌&&◌, ltb, leb, if◌then◌else◌,
}
use rapid_patch_runtime_ae.Jit.Emit.Registers.{Code}
use rapid_patch_runtime_ae.Jit.Cases.{Program, Pass}
use rapid_patch_runtime_ae.Jit.Compile.{
  code_bytes, body_start, note_end, last_of, goes_on, jit_compile,
}
use rapid_patch_runtime_ae.Jit.Build.{build_inst}

-- `code_size` counts bytes; the two buffers are read as half-words and as words.
pub record JitMem : Type 0 where
  pub jit_code : ℕ → ℕ
  pub code_size : ℕ
  pub jmp_offsets : ℕ → ℕ

-- The words of `offset_mem`.
abbrev pub offset_words : ℕ
offset_words = 256

-- Both buffers are static and cleared; their sizes do not depend on the program.
unfoldable pub jit_mem_allocate : ℕ → JitMem
jit_mem_allocate insts_num = record { jit_code = λ i. 0; code_size = 2048; jmp_offsets = λ k. 0 }

-- How many offsets the first pass notes from the instruction `i` on, the ones before counted: it follows
-- the loop of `build_body`, whose last instruction may take two slots.
unfoldable pub offsets_from : Program → ℕ → Pass → ℕ → ℕ → ℕ
offsets_from g zero p i idx = i
offsets_from g (suc fuel) p i idx =
    let b = build_inst g p idx i in
    let end = idx + code_bytes b.code in
    let last = last_of b.ret i in
    let rest = offsets_from g fuel (note_end p last end) (last + 1) end in
    if ltb i g.inst_num then (if goes_on b.ret then rest else last + 1) else i

unfoldable pub offsets_used : Program → ℕ
unfolding offsets_from
offsets_used g =
    let pass : Pass = record { need_gen = false; offsets = λ k. 0; epilogue = 0 } in
    offsets_from g g.inst_num pass 0 (body_start g)

-- The code that stands in the buffer afterwards, from its start; `none` where an offset or the code
-- is written past its buffer, which nothing checks.
unfoldable pub gen_jit_code : Program → Option Code
unfolding offsets_used
gen_jit_code g =
    let mem = jit_mem_allocate g.inst_num in
    let code = jit_compile g mem.jmp_offsets in
    if leb (offsets_used g) offset_words && leb (code_bytes code) mem.code_size
    then some code
    else none
