-- ===== src/Jit/Landing.antt =====
-- The jumps of the compiled program (libebpf/src/jit_thumb2.c) lead to the code of the instructions
-- that the eBPF jumps name.
use rapid_patch_runtime_ae.Common.{
  ℕ, ◌+◌, ◌%◌, ◌^◌, ◌≤◌, ◌<◌, ◌≡◌, refl, ap, ◌∙◌, sym, arith, ◌⊎◌, inl, inr, true, false, Option,
  some, [], ◌++◌, length-append, lt→ltb, ◌==◌, if◌then◌else◌, Bool-cases, u32,
}
use rapid_patch_runtime_ae.Vm.Inst.{Op, Cond, Operand, decode}
use rapid_patch_runtime_ae.Jit.CInt.{s16}
use rapid_patch_runtime_ae.Jit.Encode.Branch.{b_t2}
use rapid_patch_runtime_ae.Jit.Emit.Registers.{Code, emit2, emit4, bpf2a32}
use rapid_patch_runtime_ae.Jit.Emit.Jumps.{use_b4, emit_b, emit_b_cond}
use rapid_patch_runtime_ae.Jit.Cases.{
  Program, Pass, done, bpf2a32_offset, epilogue_offset, jump_distance, left_out, build_compare,
  build_jump, build_ja, build_exit,
}
use rapid_patch_runtime_ae.Jit.Build.{build_op, build_inst}
use rapid_patch_runtime_ae.Jit.Compile.{
  code_bytes, last_of, goes_on, body_start, pre_pass, pre_end, build_body,
}
use rapid_patch_runtime_ae.Jit.Sizes.{
  Fits, Short, first, emit_b_near, emit_b_cond_far, emit_b_cond_near, distance-Short,
  epilogue-Short,
}
use rapid_patch_runtime_ae.Jit.Layout.{end_of, next_of, second_pass, body-noted}
use rapid_patch_runtime_ae.Jit.Visits.{Visits, here, next, Visits-first, Visits-noted, Visits-even}
use rapid_patch_runtime_ae.Jit.Targets.{always, branch_target, Reaches}
use rapid_patch_runtime_ae.Jit.Distances.{
  condition, emit_jump-condition, distance, distance-Reaches,
}
use rapid_patch_runtime_ae.Jit.Branches.{emit2-b_t1, emit2-b_t2, emit4-bw_t3}

leads_always : {a b : ℕ} {r : Option (ℕ × ℕ)} → r ≡ some (always, a) → a ≡ b → r ≡ some (always, b)
leads_always e h = e ∙ ap (λ (x : ℕ). some (always, x)) h

-- One more instruction.
Visits-then :
    (g : Program) (p : Pass) (i idx j k : ℕ)
    → Visits g p i idx j k
    → j < g.inst_num
    → goes_on (build_inst g p k j).ret ≡ true
    → Visits g p i idx (next_of g p j k) (end_of g p j k)
Visits-then g p _ _ _ _ (here i idx) l r =
    next i idx (next_of g p i idx) (end_of g p i idx) (lt→ltb i g.inst_num l) r
      (here (next_of g p i idx) (end_of g p i idx))
Visits-then g p _ _ _ _ (next i idx j k e r v) l q =
    next i idx (next_of g p j k) (end_of g p j k) e r
      (Visits-then g p (next_of g p i idx) (end_of g p i idx) j k v l q)

module _ (g : Program) (bound : ℕ) (offsets : ℕ → ℕ) (fits : Fits g bound)
    (cleared : (k : ℕ) → offsets k ≤ bound) (short : pre_end g offsets ≤ bound) where
  -- The instruction `j` of the compiled program has its code at `k`.
  abbrev pub At : ℕ → ℕ → Type 0
  At j k = Visits g (second_pass g offsets) 0 (body_start g) j k

  noted : (k : ℕ) → (pre_pass g offsets).after.offsets k ≤ bound
  unfolding pre_pass build_body pre_end
  noted = body-noted g bound g.inst_num offsets 0 (body_start g) cleared short

  At-first : (j k : ℕ) → At j k → Visits g (first offsets) 0 (body_start g) j k × (k ≤ bound)
  unfolding pre_pass build_body pre_end
  At-first j k v =
      Visits-first g bound fits (pre_pass g offsets).after.offsets (pre_end g offsets) noted short
        g.inst_num offsets offsets 0 (body_start g) j k v short (omega arith)

  At-noted : (j k last : ℕ) → At j k → last + 1 ≡ j → (pre_pass g offsets).after.offsets last ≡ k
  unfolding pre_pass build_body
  At-noted j k last v prior =
      Visits-noted g g.inst_num offsets offsets 0 (body_start g) j k last (At-first j k v).0
        (omega arith) prior (omega arith)

  At-end :
      (pc k : ℕ)
      → At pc k
      → pc < g.inst_num
      → (build_inst g (second_pass g offsets) k pc).ret ≡ done
      → (pre_pass g offsets).after.offsets pc ≡ end_of g (second_pass g offsets) pc k
        × (end_of g (second_pass g offsets) pc k ≤ bound)
  unfolding last_of goes_on
  At-end pc k v l r =
      let p = second_pass g offsets in
      let after = Visits-then g p 0 (body_start g) pc k v l (rw r refl) in
      let following : next_of g p pc k ≡ pc + 1 = rw r refl in
      (
        At-noted (next_of g p pc k) (end_of g p pc k) pc after (sym following),
        (At-first (next_of g p pc k) (end_of g p pc k) after).1,
      )

  At-even : (j k : ℕ) → At j k → k % 2 ≡ 0
  unfolding body_start code_bytes
  At-even j k v = Visits-even g (second_pass g offsets) 0 (body_start g) j k v (omega arith)

  bound_le : bound ≤ 2040
  bound_le = elim fits [ inl h ↦ omega arith | inr h ↦ h.1 ]

  -- The last part of the code of the instruction `pc`, at `k`, is a branch on the condition `cond`
  -- that leads to `to`.
  abbrev pub BranchesTo : ℕ → ℕ → ℕ → ℕ → Type 0
  BranchesTo pc k cond to =
      (compare branch : Code) × ((build_inst g (second_pass g offsets) k pc).code
        ≡ compare ++ branch)
      × (branch_target (k + code_bytes compare) branch ≡ some (cond, to))

  -- The compiled code of an unconditional jump leads to the code of the instruction that the
  -- eBPF jump names, if the compiled code is short for its branches.
  ja-lands :
      (pc k t to : ℕ)
      → At pc k
      → At t to
      → pc < g.inst_num
      → decode (g.insts pc).opcode ≡ Op.ja
      → (s16 (g.insts pc).offset == 0) ≡ false
      → u32 (pc + s16 (g.insts pc).offset) + 1 ≡ t
      → BranchesTo pc k always to
  unfolding build_inst build_op build_ja emit2 code_bytes bpf2a32_offset
  ja-lands pc k t to v w l op far names =
      let p = second_pass g offsets in
      let off = s16 (g.insts pc).offset in
      let d = jump_distance p pc off 2 in
      let near : emit_b d ≡ emit2 (b_t2 d) = emit_b_near d bound bound_le (
        distance-Short g bound fits (pre_pass g offsets).after.offsets (pre_end g offsets) noted
          short pc (u32 (pc + off)) 2 (omega arith) (omega arith)) in
      let code : (build_inst g p k pc).code ≡ emit2 (b_t2 d) = rw (op, far) near in
      let (ends, within) = At-end pc k v l (rw op refl) in
      let from : (pre_pass g offsets).after.offsets pc ≡ k + 2 = rw (ends, code) refl in
      let target = At-noted t to (u32 (pc + off)) w names in
      let same : d ≡ distance k to = omega (arith, from, target) in
      let (reaches, unused, whole) =
        distance-Reaches bound k to (At-first pc k v).1 (At-first t to w).1 (At-even pc k v)
          (At-even t to w) bound_le in
      (
        [],
        emit2 (b_t2 d),
        code,
        rw same (leads_always (emit2-b_t2 (k + 0) (distance k to) reaches) (omega (arith, whole))),
      )

  -- The compiled code of an exit that is not the last instruction leads to the epilogue, if the
  -- compiled code is short for its branches.
  pub exit-lands :
      (pc k : ℕ)
      → At pc k
      → decode (g.insts pc).opcode ≡ Op.exit
      → (pc + 1 == g.inst_num) ≡ false
      → BranchesTo pc k always (pre_end g offsets)
  unfolding build_inst build_op build_exit emit2 code_bytes epilogue_offset pre_end body_start
  exit-lands pc k v op more =
      let p = second_pass g offsets in
      let to = pre_end g offsets in
      let d = epilogue_offset p k in
      let near : emit_b d ≡ emit2 (b_t2 d) = emit_b_near d bound bound_le (
        epilogue-Short g bound fits (pre_pass g offsets).after.offsets to noted short k
          (At-first pc k v).1) in
      let (reaches, unused, whole) =
        distance-Reaches bound k to (At-first pc k v).1 short (At-even pc k v) (omega arith)
          bound_le in
      (
        [],
        emit2 (b_t2 d),
        rw (op, more) near,
        leads_always (emit2-b_t2 (k + 0) (distance k to) reaches) (omega (arith, whole)),
      )

  small_program : use_b4 g.inst_num ≡ false → bound ≤ 250
  small_program b = elim fits [ inl h ↦ h | inr h ↦ absurd (let few = h.0 in cc) ]

  branch-code_bytes :
      (d cond : ℕ)
      → Short bound d
      → code_bytes (emit_b_cond g.inst_num d cond) ≡ (if use_b4 g.inst_num then 4 else 2)
  unfolding code_bytes emit2 emit4
  branch-code_bytes d cond s = elim (Bool-cases (use_b4 g.inst_num)) [
    | inl b ↦ rw (b, emit_b_cond_far g.inst_num d bound cond b bound_le s) refl
    | inr b ↦ rw (b, emit_b_cond_near g.inst_num d bound cond b (small_program b) s) refl
  ]

  branch-target :
      (d cond at : ℕ)
      → cond < 14
      → Short bound d
      → Reaches 11 d
      → (bound ≤ 250 → Reaches 8 d)
      → branch_target at (emit_b_cond g.inst_num d cond) ≡ some (cond, u32 (at + d + 4))
  branch-target d cond at c s far near = elim (Bool-cases (use_b4 g.inst_num)) [
    | inl b ↦
        let wide : (d < 2 ^ 20) ⊎ ((2 ^ 32 ≤ d + 2 ^ 20) × (d < 2 ^ 32)) = elim far.1 [
          | inl h ↦ inl (omega arith)
          | inr h ↦ inr (omega arith, omega arith)
        ] in
        rw (emit_b_cond_far g.inst_num d bound cond b bound_le s)
          (emit4-bw_t3 at d cond c (far.0, wide))
    | inr b ↦
        rw (emit_b_cond_near g.inst_num d bound cond b (small_program b) s)
          (emit2-b_t1 at d cond c (near (small_program b)))
  ]

  -- The compiled code of a conditional jump ends in an ARM branch on the condition that `condition`
  -- has for the jump's, and it leads to the code of the instruction that the eBPF jump names. The
  -- condition is one of the seven for which a branch is made; the instruction named is not the first
  -- of the program; a comparison with a constant has an offset other than 0; both instructions are
  -- compiled; the code up to the epilogue is short for its branches: 250 bytes at most, or 2040 at
  -- most in a program that takes the four-byte form; and no offset in the cleared table is larger
  -- than that.
  pub jump-lands :
      (pc k t to cond : ℕ) (c : Cond) (s : Operand)
      → At pc k
      → At t to
      → pc < g.inst_num
      → decode (g.insts pc).opcode ≡ Op.jump c s
      → condition c ≡ some cond
      → left_out s (s16 (g.insts pc).offset) ≡ false
      → u32 (pc + s16 (g.insts pc).offset) + 1 ≡ t
      → BranchesTo pc k cond to
  unfolding build_inst build_op build_jump code_bytes bpf2a32_offset
  jump-lands pc k t to cond c s v w l op made far names =
      let p = second_pass g offsets in
      let inst = g.insts pc in
      let off = s16 inst.offset in
      let size : ℕ = if use_b4 g.inst_num then 4 else 2 in
      let d = jump_distance p pc off size in
      let (plain, c14) = emit_jump-condition g.inst_num d c cond made in
      let compare =
        build_compare c s (bpf2a32 g.beyond inst.dst) (bpf2a32 g.beyond inst.src) inst.imm in
      let branch = emit_b_cond g.inst_num d cond in
      let code : (build_inst g p k pc).code ≡ compare ++ branch = rw (op, far, plain) refl in
      let near =
        distance-Short g bound fits (pre_pass g offsets).after.offsets (pre_end g offsets) noted
          short pc (u32 (pc + off)) size (ground arith) (ground arith) in
      let (ends, within) = At-end pc k v l (rw op refl) in
      let at = k + code_bytes compare in
      let long = branch-code_bytes d cond near in
      let from : (pre_pass g offsets).after.offsets pc ≡ at + size =
        rw (ends, code, length-append) (omega (arith, long)) in
      let target = At-noted t to (u32 (pc + off)) w names in
      let inside : at ≤ bound = omega (arith, from, noted pc) in
      let same : d ≡ distance at to = omega (arith, from, target) in
      let (reaches, shorter, whole) =
        distance-Reaches bound at to inside (At-first t to w).1 (omega (arith, At-even pc k v))
          (At-even t to w) bound_le in
      let leads = branch-target d cond at c14 near (rw same reaches) (λ b. rw same (shorter b)) in
      (compare, branch, code, rw leads (ap (λ (x : ℕ). some (cond, x)) (rw same whole)))
