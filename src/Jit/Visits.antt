-- ===== src/Jit/Visits.antt =====
-- The instructions that a pass of `jit_compile` (libebpf/src/jit_thumb2.c) comes to, with the place
-- of each one's code.
use rapid_patch_runtime_ae.Common.{
  ℕ, zero, suc, ◌+◌, ◌%◌, ◌≤◌, ◌<◌, ◌≡◌, refl, ◌∙◌, sym, arith, ◌⊎◌, inl, inr, true, length-append,
  ltb, ltb→lt, Bool-cases,
}
use rapid_patch_runtime_ae.Jit.Cases.{Program, Pass, Ret, done, skip, failed}
use rapid_patch_runtime_ae.Jit.Build.{build_inst}
use rapid_patch_runtime_ae.Jit.Compile.{
  code_bytes, note_end, write_offset, last_of, goes_on, build_body_from,
}
use rapid_patch_runtime_ae.Jit.Sizes.{Fits, first, second, build_inst-sizes, build_inst-first}
use rapid_patch_runtime_ae.Jit.Layout.{end_of, next_of, noted_at, body_next, body_failed, body_stop}

-- From the instruction `i`, whose code begins at `idx`, the loop comes to the instruction `j`, whose
-- code begins at `k`.
pub data Visits (g : Program) (p : Pass) : ℕ → ℕ → ℕ → ℕ → Type 0 where
  here : (i idx : ℕ) → Visits g p i idx i idx
  next :
      (i idx j k : ℕ)
      → ltb i g.inst_num ≡ true
      → goes_on (build_inst g p idx i).ret ≡ true
      → Visits g p (next_of g p i idx) (end_of g p i idx) j k
      → Visits g p i idx j k

pub last_of-le : (r : Ret) (i : ℕ) → i ≤ last_of r i
unfolding last_of
last_of-le done i = omega arith
last_of-le skip i = omega arith
last_of-le failed i = omega arith

pub Visits-le : (g : Program) (p : Pass) (i idx j k : ℕ) → Visits g p i idx j k → i ≤ j
Visits-le g p _ _ _ _ (here i idx) = omega arith
Visits-le g p _ _ _ _ (next i idx j k e r v) =
    let later = Visits-le g p (next_of g p i idx) (end_of g p i idx) j k v in
    let step = last_of-le ((build_inst g p idx i).ret) i in omega (arith, later, step)

Visits-either :
    (g : Program) (p : Pass) (i idx j k : ℕ)
    → Visits g p i idx j k
    → ((i ≡ j) × (idx ≡ k)) ⊎ (i < j)
Visits-either g p _ _ _ _ (here i idx) = inl (refl, refl)
Visits-either g p _ _ _ _ (next i idx j k e r v) =
    let later = Visits-le g p (next_of g p i idx) (end_of g p i idx) j k v in
    let step = last_of-le ((build_inst g p idx i).ret) i in inr (omega (arith, later, step))

-- The code of every visited instruction begins at an even place.
pub Visits-even :
    (g : Program) (p : Pass) (i idx j k : ℕ) → Visits g p i idx j k → idx % 2 ≡ 0 → k % 2 ≡ 0
unfolding code_bytes
Visits-even g p _ _ _ _ (here i idx) h = h
Visits-even g p _ _ _ _ (next i idx j k e r v) h =
    Visits-even g p (next_of g p i idx) (end_of g p i idx) j k v (omega arith)

write-below : (before : ℕ → ℕ) (i v m : ℕ) → m < i → write_offset before i v m ≡ before m
unfolding write_offset
write-below before i v m h = ground arith

write-at : (before : ℕ → ℕ) (i v : ℕ) → write_offset before i v i ≡ v
unfolding write_offset
write-at before i v = ground arith

-- What the loop has noted for earlier instructions stays.
kept :
    (g : Program) (fuel : ℕ) (before : ℕ → ℕ) (i idx m : ℕ)
    → m < i
    → (build_body_from g fuel (first before) i idx).after.offsets m ≡ before m
unfolding build_body_from note_end
kept g zero before i idx m h = refl
kept g (suc fuel) before i idx m h =
    let pre = first before in
    let later = last_of-le ((build_inst g pre idx i).ret) i in
    let same : write_offset before (last_of (build_inst g pre idx i).ret i) (end_of g pre i idx) m
        ≡ before m =
      write-below before (last_of (build_inst g pre idx i).ret i) (end_of g pre i idx) m
        (omega (arith, later)) in
    elim (Bool-cases (ltb i g.inst_num)) [
      | inl e ↦ elim (Bool-cases (goes_on (build_inst g pre idx i).ret)) [
        | inl r ↦ rw (body_next g fuel pre i idx e r) (
            kept g fuel (noted_at g pre i idx).offsets (next_of g pre i idx) (end_of g pre i idx) m
              (omega (arith, later))
            ∙ same)
        | inr r ↦ rw (body_failed g fuel pre i idx e r) same
      ]
      | inr e ↦ rw (body_stop g fuel pre i idx e) refl
    ]

-- The first pass has noted the place of every instruction that it comes to with the one before it.
pub Visits-noted :
    (g : Program) (fuel : ℕ) (any before : ℕ → ℕ) (i idx j k last : ℕ)
    → Visits g (first any) i idx j k
    → i < j
    → last + 1 ≡ j
    → g.inst_num ≤ i + fuel
    → (build_body_from g fuel (first before) i idx).after.offsets last ≡ k
unfolding note_end
Visits-noted g fuel any before _ _ _ _ last (here i idx) later prior enough = absurd (omega arith)
Visits-noted g zero any before _ _ _ _ last (next i idx j k e r v) later prior enough =
    absurd (omega (arith, ltb→lt i g.inst_num e))
Visits-noted g (suc fuel) any before _ _ _ _ last (next i idx j k e r v) later prior enough =
    let same = build_inst-first g any before idx i in
    let pre = first before in
    let step = last_of-le ((build_inst g pre idx i).ret) i in
    let r' : goes_on (build_inst g pre idx i).ret ≡ true = rw (sym same) r in
    let v' : Visits g (first any) (next_of g pre i idx) (end_of g pre i idx) j k =
      rw (sym same) v in
    rw (body_next g fuel pre i idx e r')
      (elim (Visits-either g (first any) (next_of g pre i idx) (end_of g pre i idx) j k v') [
        | inl (a, b) ↦
            let now = last_of (build_inst g pre idx i).ret i in
            let there : last ≡ now = omega (arith, a, prior) in
            rw there (
              kept g fuel (noted_at g pre i idx).offsets (next_of g pre i idx) (end_of g pre i idx)
                now (omega arith)
              ∙ write-at before now (end_of g pre i idx)
              ∙ b)
        | inr less ↦
            Visits-noted g fuel any (noted_at g pre i idx).offsets (next_of g pre i idx)
              (end_of g pre i idx) j k last v' less prior (omega (arith, step))
      ])

module _ (g : Program) (bound : ℕ) (fits : Fits g bound) (offsets : ℕ → ℕ) (epilogue : ℕ)
    (noted : (k : ℕ) → offsets k ≤ bound) (ends : epilogue ≤ bound) where
  -- The first pass comes to the same instructions, at the same places.
  pub Visits-first :
      (fuel : ℕ) (any before : ℕ → ℕ) (i idx j k : ℕ)
      → Visits g (second offsets epilogue) i idx j k
      → idx + code_bytes (build_body_from g fuel (first before) i idx).code ≤ bound
      → g.inst_num ≤ i + fuel
      → Visits g (first any) i idx j k × (k ≤ bound)
  unfolding note_end code_bytes
  Visits-first fuel any before _ _ _ _ (here i idx) l enough = (here i idx, omega arith)
  Visits-first zero any before _ _ _ _ (next i idx j k e r v) l enough =
      absurd (omega (arith, ltb→lt i g.inst_num e))
  Visits-first (suc fuel) any before _ _ _ _ (next i idx j k e r v) l enough =
      let pre = first before in
      let (length_same, ret_same) =
        build_inst-sizes g bound fits offsets epilogue noted ends before idx i (omega arith) in
      let (length_any, ret_any) =
        build_inst-sizes g bound fits offsets epilogue noted ends any idx i (omega arith) in
      let step = last_of-le ((build_inst g pre idx i).ret) i in
      let now = (build_inst g pre idx i).code in
      let rest =
        build_body_from g fuel (noted_at g pre i idx) (next_of g pre i idx) (end_of g pre i idx) in
      let whole =
        rw (body_next g fuel pre i idx e (rw (sym ret_same) r), length-append now rest.code) at l in
      let v' = rw (length_same, ret_same) at v in
      let (w, b) =
        Visits-first fuel any (noted_at g pre i idx).offsets (next_of g pre i idx)
          (end_of g pre i idx) j k v' (omega (arith, whole)) (omega (arith, step)) in
      let same = build_inst-first g any before idx i in
      (next i idx j k e (rw (sym ret_any) r) (rw same w), b)

-- If no instruction is refused, the pass comes to the end of the program.
Visits-whole :
    (g : Program) (p : Pass) (fuel i idx : ℕ)
    → g.inst_num ≤ i + fuel
    → ((at pc : ℕ) → pc < g.inst_num → goes_on (build_inst g p at pc).ret ≡ true)
    → (j : ℕ) × (k : ℕ) × Visits g p i idx j k × (g.inst_num ≤ j)
Visits-whole g p zero i idx enough fine = (i, idx, here i idx, omega arith)
Visits-whole g p (suc fuel) i idx enough fine = elim (Bool-cases (ltb i g.inst_num)) [
  | inl e ↦
      let step = last_of-le ((build_inst g p idx i).ret) i in
      let (j, k, v, l) =
        Visits-whole g p fuel (next_of g p i idx) (end_of g p i idx) (omega (arith, step)) fine in
      (j, k, next i idx j k e (fine idx i (ltb→lt i g.inst_num e)) v, l)
  | inr e ↦ (i, idx, here i idx, ground arith)
]
