-- ===== src/Jit/Placed.antt =====
-- Where the code of an instruction stands in the code of `jit_compile` (libebpf/src/jit_thumb2.c).
use rapid_patch_runtime_ae.Common.{
  ℕ, zero, suc, ◌+◌, ◌≤◌, ◌<◌, ◌≡◌, refl, ◌∙◌, sym, ap, arith, inl, inr, [], ◌++◌, length-append,
  append_nil, append_assoc, ltb→lt, lt→ltb, Bool-cases,
}
use rapid_patch_runtime_ae.Jit.Emit.Registers.{Code}
use rapid_patch_runtime_ae.Jit.Cases.{Program}
use rapid_patch_runtime_ae.Jit.Build.{build_inst}
use rapid_patch_runtime_ae.Jit.Compile.{
  Body, code_bytes, note_end, goes_on, build_body_from, build_body, body_start, pre_pass, pre_end,
  gen_pass, jit_compile, build_prologue, build_epilogue,
}
use rapid_patch_runtime_ae.Jit.Sizes.{second}
use rapid_patch_runtime_ae.Jit.Layout.{end_of, next_of, body_next, body_failed, second_pass}
use rapid_patch_runtime_ae.Jit.Visits.{Visits, here, next, last_of-le}

-- The code of a visited instruction stands at its place in the whole of the code from `idx` on.
abbrev pub Placed : Code → ℕ → ℕ → Code → Type 0
Placed whole idx k part =
    (before : Code) × (after : Code) × (whole ≡ before ++ (part ++ after))
    × (idx + code_bytes before ≡ k)

pub Visits-Placed :
    (g : Program) (fuel : ℕ) (offsets : ℕ → ℕ) (epilogue i idx j k : ℕ)
    → Visits g (second offsets epilogue) i idx j k
    → j < g.inst_num
    → g.inst_num ≤ i + fuel
    → let p = second offsets epilogue in
      Placed (build_body_from g fuel p i idx).code idx k (build_inst g p k j).code
unfolding note_end code_bytes
Visits-Placed g zero offsets epilogue _ _ _ _ (here i idx) l enough = absurd (omega arith)
Visits-Placed g (suc fuel) offsets epilogue _ _ _ _ (here i idx) l enough =
    let p = second offsets epilogue in
    let e = lt→ltb i g.inst_num l in
    elim (Bool-cases (goes_on (build_inst g p idx i).ret)) [
      | inl r ↦ (
        [],
        (build_body_from g fuel p (next_of g p i idx) (end_of g p i idx)).code,
        rw (body_next g fuel p i idx e r) refl,
        omega arith,
      )
      | inr r ↦ (
        [],
        [],
        rw (body_failed g fuel p i idx e r) (sym (append_nil (build_inst g p idx i).code)),
        omega arith,
      )
    ]
Visits-Placed g zero offsets epilogue _ _ _ _ (next i idx j k e r v) l enough =
    absurd (omega (arith, ltb→lt i g.inst_num e))
Visits-Placed g (suc fuel) offsets epilogue _ _ _ _ (next i idx j k e r v) l enough =
    let p = second offsets epilogue in
    let step = last_of-le ((build_inst g p idx i).ret) i in
    let now = (build_inst g p idx i).code in
    let (before, after, whole, place) =
      Visits-Placed g fuel offsets epilogue (next_of g p i idx) (end_of g p i idx) j k v l
        (omega (arith, step)) in
    let part = (build_inst g p k j).code in
    let joined =
      ap (λ (b : Body). b.code) (body_next g fuel p i idx e r)
      ∙ ap (λ (rest : Code). now ++ rest) whole
      ∙ sym (append_assoc now before (part ++ after)) in
    (now ++ before, after, joined, omega (arith, place, length-append now before))

framed : (p b x a e : Code) → p ++ ((b ++ (x ++ a)) ++ e) ≡ (p ++ b) ++ (x ++ (a ++ e))
framed p b x a e =
    rw (append_assoc b (x ++ a) e, append_assoc x a e) (sym (append_assoc p b (x ++ (a ++ e))))

-- The code of every instruction that the second pass comes to stands in the compiled code at the
-- place where the pass came to it.
jit_compile-Placed :
    (g : Program) (offsets : ℕ → ℕ) (j k : ℕ)
    → Visits g (second_pass g offsets) 0 (body_start g) j k
    → j < g.inst_num
    → Placed (jit_compile g offsets) 0 k (build_inst g (second_pass g offsets) k j).code
unfolding jit_compile gen_pass build_body body_start code_bytes
jit_compile-Placed g offsets j k v l =
    let first_part = build_prologue g in
    let (before, after, whole, place) =
      Visits-Placed g g.inst_num (pre_pass g offsets).after.offsets (pre_end g offsets) 0
        (body_start g) j k v l (omega arith) in
    let part = (build_inst g (second_pass g offsets) k j).code in
    (
      first_part ++ before,
      after ++ build_epilogue,
      rw whole (framed first_part before part after build_epilogue),
      omega (arith, place, length-append first_part before),
    )
