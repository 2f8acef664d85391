-- ===== src/Jit/Sizes.antt =====
-- The size of an instruction's code is the same in both passes of `jit_compile`
-- (libebpf/src/jit_thumb2.c), as long as the code is short.
use rapid_patch_runtime_ae.Common.{
  ℕ, ◌+◌, ◌^◌, ◌≤◌, ◌<◌, ◌≡◌, refl, ◌∙◌, sym, arith, ◌⊎◌, inl, inr, true, false, if◌then◌else◌,
  ◌++◌, length-append, ◌==◌, length, u32, Bool-cases,
}
use rapid_patch_runtime_ae.Vm.Inst.{Op, Cond, Operand, decode, cond_bits}
use rapid_patch_runtime_ae.Jit.CInt.{s16}
use rapid_patch_runtime_ae.Jit.Encode.Branch.{b_t1, b_t2, bw_t3}
use rapid_patch_runtime_ae.Jit.Encode.Memory.{RegPair}
use rapid_patch_runtime_ae.Jit.Emit.Registers.{Code, emit2, emit4, bpf2a32}
use rapid_patch_runtime_ae.Jit.Emit.Jumps.{use_b4, emit_b, emit_b_cond, emit_jump}
use rapid_patch_runtime_ae.Jit.Cases.{
  Program, Pass, Built, bpf2a32_offset, epilogue_offset, jump_distance, left_out, build_compare,
  build_jump, build_ja, build_exit,
}
use rapid_patch_runtime_ae.Jit.Build.{build_op, build_inst}

-- A signed distance that a branch of the first size reaches, forwards and backwards, from code of
-- `bound` bytes.
abbrev pub Short : ℕ → ℕ → Type 0
Short bound d = (d ≤ bound) ⊎ ((2 ^ 32 ≤ d + bound + 4) × (d < 2 ^ 32))

-- The code is short for its branches: up to 250 bytes, or up to 2040 where the program has more
-- than 20 instructions, whose conditional branches take four bytes.
abbrev pub Fits : Program → ℕ → Type 0
Fits g bound = (bound ≤ 250) ⊎ ((use_b4 g.inst_num ≡ true) × (bound ≤ 2040))

pub emit_b_near : (d bound : ℕ) → bound ≤ 2040 → Short bound d → emit_b d ≡ emit2 (b_t2 d)
unfolding emit_b
emit_b_near d bound h (inl s) = ground arith
emit_b_near d bound h (inr s) = ground arith

length-append_same :
    (xs ys zs : Code) → length ys ≡ length zs → length (xs ++ ys) ≡ length (xs ++ zs)
length-append_same xs ys zs h = rw (length-append xs ys, length-append xs zs, h) refl

pub emit_b_cond_far :
    (n d bound cond : ℕ)
    → use_b4 n ≡ true
    → bound ≤ 2040
    → Short bound d
    → emit_b_cond n d cond ≡ emit4 (bw_t3 d cond)
unfolding emit_b_cond
emit_b_cond_far n d bound cond u h (inl s) = ground arith
emit_b_cond_far n d bound cond u h (inr s) = ground arith

pub emit_b_cond_near :
    (n d bound cond : ℕ)
    → use_b4 n ≡ false
    → bound ≤ 250
    → Short bound d
    → emit_b_cond n d cond ≡ emit2 (b_t1 d cond)
unfolding emit_b_cond
emit_b_cond_near n d bound cond u h (inl s) = ground arith
emit_b_cond_near n d bound cond u h (inr s) = ground arith

abbrev width : ℕ → ℕ
width inst_num = if use_b4 inst_num then 2 else 1

emit_b_cond-width :
    (g : Program) (d bound cond : ℕ)
    → Fits g bound
    → Short bound d
    → length (emit_b_cond g.inst_num d cond) ≡ width g.inst_num
unfolding emit_b_cond emit2 emit4
emit_b_cond-width g d bound cond (inl h) (inl s) = ground arith
emit_b_cond-width g d bound cond (inl h) (inr s) = ground arith
emit_b_cond-width g d bound cond (inr h) (inl s) = ground arith
emit_b_cond-width g d bound cond (inr h) (inr s) = ground arith

emit_jump-length :
    (g : Program) (d bound : ℕ) (c : Cond)
    → Fits g bound
    → Short bound d
    → length (emit_jump g.inst_num d (cond_bits c)) ≡ length (emit_jump g.inst_num 0 (cond_bits c))
unfolding emit_jump
emit_jump-length g d bound c f s = by_cond c
  where
    same :
        (cond : ℕ) → length (emit_b_cond g.inst_num d cond) ≡ length (emit_b_cond g.inst_num 0 cond)
    same cond =
        emit_b_cond-width g d bound cond f s
        ∙ sym (emit_b_cond-width g 0 bound cond f (inl (omega arith)))

    by_cond :
        (k : Cond)
        → length (emit_jump g.inst_num d (cond_bits k))
          ≡ length (emit_jump g.inst_num 0 (cond_bits k))
    by_cond Cond.jeq = same 0x0
    by_cond Cond.jgt = same 0x8
    by_cond Cond.jge = same 0x2
    by_cond Cond.jset = same 0x1
    by_cond Cond.jne = same 0x1
    by_cond Cond.jsgt = same 0xb
    by_cond Cond.jsge = same 0xa
    by_cond _ = refl

-- The two passes over one program.
abbrev pub first : (ℕ → ℕ) → Pass
first offsets = record { need_gen = false; offsets = offsets; epilogue = 0 }

abbrev pub second : (ℕ → ℕ) → ℕ → Pass
second offsets epilogue = record { need_gen = true; offsets = offsets; epilogue = epilogue }

-- What the passes have in common at one instruction.
abbrev pub SameSize : Built → Built → Type 0
SameSize a b = (length a.code ≡ length b.code) × (a.ret ≡ b.ret)

module _ (g : Program) (bound : ℕ) (fits : Fits g bound) (offsets : ℕ → ℕ) (epilogue : ℕ)
    (noted : (k : ℕ) → offsets k ≤ bound) (ends : epilogue ≤ bound) where
  bound_le : bound ≤ 2040
  bound_le = elim fits [ inl h ↦ omega arith | inr h ↦ h.1 ]

  pub distance-Short :
      (from to bsize : ℕ)
      → bsize ≤ 4
      → 2 ≤ bsize
      → Short bound (bpf2a32_offset (second offsets epilogue) from to bsize)
  unfolding bpf2a32_offset
  distance-Short from to bsize h l = ground (arith, bound_le, noted from, noted to)

  pub epilogue-Short :
      (idx : ℕ) → idx ≤ bound → Short bound (epilogue_offset (second offsets epilogue) idx)
  unfolding epilogue_offset
  epilogue-Short idx h = ground (arith, bound_le, ends)

  emit_b-length : (d e : ℕ) → Short bound d → Short bound e → length (emit_b d) ≡ length (emit_b e)
  unfolding emit2
  emit_b-length d e hd he =
      rw (emit_b_near d bound bound_le hd, emit_b_near e bound bound_le he) refl

  zero-Short : Short bound 0
  zero-Short = inl (omega arith)

  ja-sizes :
      (before : ℕ → ℕ) (pc off : ℕ)
      → length (build_ja (second offsets epilogue) pc off) ≡ length (build_ja (first before) pc off)
  unfolding build_ja bpf2a32_offset
  ja-sizes before pc off = elim (Bool-cases (off == 0)) [
    | inl e ↦ rw e refl
    | inr e ↦ rw e (
        emit_b-length (jump_distance (second offsets epilogue) pc off 2) 0
          (distance-Short pc (u32 (pc + off)) 2 (omega arith) (omega arith)) zero-Short)
  ]

  exit-sizes :
      (before : ℕ → ℕ) (idx pc : ℕ)
      → idx ≤ bound
      → length (build_exit g (second offsets epilogue) idx pc)
        ≡ length (build_exit g (first before) idx pc)
  unfolding build_exit epilogue_offset
  exit-sizes before idx pc h = elim (Bool-cases (pc + 1 == g.inst_num)) [
    | inl e ↦ rw e refl
    | inr e ↦ rw e (
        emit_b-length (epilogue_offset (second offsets epilogue) idx) 0 (epilogue-Short idx h)
          zero-Short)
  ]

  jump-sizes :
      (before : ℕ → ℕ) (pc : ℕ) (c : Cond) (s : Operand) (dst src : RegPair) (off imm : ℕ)
      → length (build_jump g (second offsets epilogue) pc c s dst src off imm)
        ≡ length (build_jump g (first before) pc c s dst src off imm)
  unfolding build_jump bpf2a32_offset
  jump-sizes before pc c s dst src off imm = elim (Bool-cases (left_out s off)) [
    | inl e ↦ rw e refl
    | inr e ↦
        let size : ℕ = if use_b4 g.inst_num then 4 else 2 in
        let far = jump_distance (second offsets epilogue) pc off size in
        let small : size ≤ 4 = ground arith in
        let large : 2 ≤ size = ground arith in
        rw e (
          length-append_same (build_compare c s dst src imm)
            (emit_jump g.inst_num far (cond_bits c)) (emit_jump g.inst_num 0 (cond_bits c))
            (emit_jump-length g far bound c fits
              (distance-Short pc (u32 (pc + off)) size small large)))
  ]

  build_op-sizes :
      (before : ℕ → ℕ) (idx pc : ℕ) (op : Op) (dst src : RegPair) (off imm next : ℕ)
      → idx ≤ bound
      → SameSize
          (build_op g (second offsets epilogue) idx pc op dst src off imm next)
          (build_op g (first before) idx pc op dst src off imm next)
  unfolding build_op
  build_op-sizes before idx pc Op.ja dst src off imm next h = (ja-sizes before pc off, refl)
  build_op-sizes before idx pc Op.exit dst src off imm next h = (exit-sizes before idx pc h, refl)
  build_op-sizes before idx pc (Op.jump c s) dst src off imm next h =
      (jump-sizes before pc c s dst src off imm, refl)
  build_op-sizes before idx pc _ dst src off imm next h = (refl, refl)

  -- An instruction that starts within the bound has code of the same size in both passes.
  pub build_inst-sizes :
      (before : ℕ → ℕ) (idx pc : ℕ)
      → idx ≤ bound
      → SameSize
          (build_inst g (second offsets epilogue) idx pc)
          (build_inst g (first before) idx pc)
  unfolding build_inst
  build_inst-sizes before idx pc h =
      let inst = g.insts pc in
      build_op-sizes before idx pc (decode inst.opcode) (bpf2a32 g.beyond inst.dst)
        (bpf2a32 g.beyond inst.src) (s16 inst.offset) inst.imm ((g.insts (pc + 1)).imm) h

-- The code of the first pass does not depend on the ends that are noted.
first_same :
    (g : Program) (before after : ℕ → ℕ) (idx pc : ℕ) (op : Op) (dst src : RegPair)
    (off imm next : ℕ)
    → build_op g (first before) idx pc op dst src off imm next
      ≡ build_op g (first after) idx pc op dst src off imm next
unfolding build_op build_jump build_ja bpf2a32_offset build_exit epilogue_offset
first_same g before after idx pc _ dst src off imm next = refl

pub build_inst-first :
    (g : Program) (before after : ℕ → ℕ) (idx pc : ℕ)
    → build_inst g (first before) idx pc ≡ build_inst g (first after) idx pc
unfolding build_inst
build_inst-first g before after idx pc =
    let inst = g.insts pc in
    first_same g before after idx pc (decode inst.opcode) (bpf2a32 g.beyond inst.dst)
      (bpf2a32 g.beyond inst.src) (s16 inst.offset) inst.imm ((g.insts (pc + 1)).imm)
