-- ===== src/Jit/Layout.antt =====
-- The second pass of `jit_compile` (libebpf/src/jit_thumb2.c) puts every instruction where the
-- first pass noted it.
use rapid_patch_runtime_ae.Common.{
  ℕ, zero, suc, ◌+◌, ◌≤◌, ◌≡◌, refl, arith, inl, inr, true, false, [], ◌++◌, length, length-append,
  ltb, ◌==◌, Bool-cases,
}
use rapid_patch_runtime_ae.Jit.Cases.{Program, Pass}
use rapid_patch_runtime_ae.Jit.Build.{build_inst}
use rapid_patch_runtime_ae.Jit.Compile.{
  code_bytes, note_end, last_of, goes_on, write_offset, build_body_from, build_body, body_start,
  pre_pass, pre_end, gen_pass,
}
use rapid_patch_runtime_ae.Jit.Sizes.{Fits, first, second, build_inst-sizes}

-- The end of the instruction at `i` when its code begins at `idx`.
abbrev pub end_of : Program → Pass → ℕ → ℕ → ℕ
end_of g p i idx = idx + code_bytes (build_inst g p idx i).code

-- The instruction that follows it, or its second half.
abbrev pub next_of : Program → Pass → ℕ → ℕ → ℕ
next_of g p i idx = last_of (build_inst g p idx i).ret i + 1

abbrev pub noted_at : Program → Pass → ℕ → ℕ → Pass
noted_at g p i idx = note_end p (last_of (build_inst g p idx i).ret i) (end_of g p i idx)

module _ (g : Program) (fuel : ℕ) (p : Pass) (i idx : ℕ) where
  pub body_stop :
      ltb i g.inst_num ≡ false
      → build_body_from g (suc fuel) p i idx ≡ record { code = []; after = p }
  unfolding build_body_from
  body_stop e = rw (build_body_from, e) refl

  pub body_next :
      ltb i g.inst_num ≡ true
      → goes_on (build_inst g p idx i).ret ≡ true
      → build_body_from g (suc fuel) p i idx ≡ (
          let rest =
            build_body_from g fuel (noted_at g p i idx) (next_of g p i idx) (end_of g p i idx) in
          record { code = (build_inst g p idx i).code ++ rest.code; after = rest.after })
  unfolding build_body_from
  body_next e r = rw (build_body_from, e, r) refl

  pub body_failed :
      ltb i g.inst_num ≡ true
      → goes_on (build_inst g p idx i).ret ≡ false
      → build_body_from g (suc fuel) p i idx
        ≡ record { code = (build_inst g p idx i).code; after = noted_at g p i idx }
  unfolding build_body_from
  body_failed e r = rw (build_body_from, e, r) refl

module _ (g : Program) (bound : ℕ) (fits : Fits g bound) (offsets : ℕ → ℕ) (epilogue : ℕ)
    (noted : (k : ℕ) → offsets k ≤ bound) (ends : epilogue ≤ bound) where
  -- Both passes over the rest of the program make code of the same size.
  body-sizes :
      (fuel : ℕ) (before : ℕ → ℕ) (i idx : ℕ)
      → idx + code_bytes (build_body_from g fuel (first before) i idx).code ≤ bound
      → length (build_body_from g fuel (second offsets epilogue) i idx).code
        ≡ length (build_body_from g fuel (first before) i idx).code
  unfolding code_bytes note_end build_body_from
  body-sizes zero before i idx h = refl
  body-sizes (suc fuel) before i idx h =
      let pre = first before in
      let gen = second offsets epilogue in
      let (length_same, ret_same) =
        build_inst-sizes g bound fits offsets epilogue noted ends before idx i (omega arith) in
      elim (Bool-cases (ltb i g.inst_num)) [
        | inl e ↦ elim (Bool-cases (goes_on (build_inst g pre idx i).ret)) [
          | inl r ↦
              let now = (build_inst g pre idx i).code in
              let rest =
                build_body_from g fuel (noted_at g pre i idx) (next_of g pre i idx)
                  (end_of g pre i idx) in
              let whole = rw (body_next g fuel pre i idx e r, length-append now rest.code) at h in
              let later =
                body-sizes fuel (noted_at g pre i idx).offsets (next_of g pre i idx)
                  (end_of g pre i idx) (omega (arith, whole)) in
              rw
                (
                  body_next g fuel pre i idx e r,
                  body_next g fuel gen i idx e (rw ret_same r),
                  length-append,
                  length-append,
                  length_same,
                  ret_same,
                  later,
                )
                refl
          | inr r ↦
              rw (body_failed g fuel pre i idx e r, body_failed g fuel gen i idx e (rw ret_same r))
                length_same
        ]
        | inr e ↦ rw (body_stop g fuel pre i idx e, body_stop g fuel gen i idx e) refl
      ]

write-le :
    (before : ℕ → ℕ) (bound i v : ℕ)
    → ((k : ℕ) → before k ≤ bound)
    → v ≤ bound
    → (k : ℕ) → write_offset before i v k ≤ bound
unfolding write_offset
write-le before bound i v h l k = elim (Bool-cases (k == i)) [ inl e ↦ rw e l | inr e ↦ rw e (h k) ]

-- The ends that the first pass notes lie within its code.
pub body-noted :
    (g : Program) (bound fuel : ℕ) (before : ℕ → ℕ) (i idx : ℕ)
    → ((k : ℕ) → before k ≤ bound)
    → idx + code_bytes (build_body_from g fuel (first before) i idx).code ≤ bound
    → (k : ℕ) → (build_body_from g fuel (first before) i idx).after.offsets k ≤ bound
unfolding build_body_from code_bytes note_end
body-noted g bound zero before i idx h l k = h k
body-noted g bound (suc fuel) before i idx h l k =
    let pre = first before in
    let now = (build_inst g pre idx i).code in
    elim (Bool-cases (ltb i g.inst_num)) [
      | inl e ↦ elim (Bool-cases (goes_on (build_inst g pre idx i).ret)) [
        | inl r ↦
            let rest =
              build_body_from g fuel (noted_at g pre i idx) (next_of g pre i idx)
                (end_of g pre i idx) in
            let whole = rw (body_next g fuel pre i idx e r, length-append now rest.code) at l in
            rw (body_next g fuel pre i idx e r) (
              body-noted g bound fuel (noted_at g pre i idx).offsets (next_of g pre i idx)
                (end_of g pre i idx)
                (write-le before bound (last_of (build_inst g pre idx i).ret i) (end_of g pre i idx)
                  h (omega (arith, whole)))
                (omega (arith, whole)) k)
        | inr r ↦
            let whole = rw (body_failed g fuel pre i idx e r) at l in
            rw (body_failed g fuel pre i idx e r) (
              write-le before bound (last_of (build_inst g pre idx i).ret i) (end_of g pre i idx) h
                (omega (arith, whole)) k)
      ]
      | inr e ↦ rw (body_stop g fuel pre i idx e) (h k)
    ]

-- The part of the second pass that reads what the first one noted.
abbrev pub second_pass : Program → (ℕ → ℕ) → Pass
second_pass g offsets = second (pre_pass g offsets).after.offsets (pre_end g offsets)

-- The epilogue begins where the first pass has computed, if its code is short for its branches and
-- so were the contents of `offsets` before.
pub gen_pass-pre_end :
    (g : Program) (bound : ℕ) (offsets : ℕ → ℕ)
    → Fits g bound
    → ((k : ℕ) → offsets k ≤ bound)
    → pre_end g offsets ≤ bound
    → body_start g + code_bytes (gen_pass g offsets).code ≡ pre_end g offsets
unfolding pre_end gen_pass pre_pass build_body code_bytes
gen_pass-pre_end g bound offsets fits h l =
    let noted = body-noted g bound g.inst_num offsets 0 (body_start g) h l in
    let same =
      body-sizes g bound fits (pre_pass g offsets).after.offsets (pre_end g offsets) noted l
        g.inst_num offsets 0 (body_start g) l in
    rw same refl
