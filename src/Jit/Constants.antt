-- ===== src/Jit/Constants.antt =====
-- The code that libebpf/src/jit_thumb2.c emits for a constant loads that constant.
use rapid_patch_runtime_ae.Common.{
  ℕ, ◌+◌, ◌*◌, ◌/◌, ◌%◌, ◌^◌, ◌<◌, ◌≡◌, ◌≢◌, refl, ◌∙◌, ap, arith, true, false, ◌&&◌, ◌==◌, ltb,
  leb, some, [], ◌∷◌, ◌++◌, append_nil, append_assoc, Bool-cases, inl, inr, u8, bit_or,
}
use rapid_patch_runtime_ae.Common.Bits.{bit_and_mask, bit_and_shift, bit_or_fields, bit_or-above}
use rapid_patch_runtime_ae.Jit.Emit.Registers.{Code, emit2, emit4}
use rapid_patch_runtime_ae.Jit.Emit.Moves.{mov_half, emit_mov_imm}
use rapid_patch_runtime_ae.Jit.Arm.{
  Arm, with_reg, exec16, exec32, half_constant, run, run-wide, run-narrow, with_reg-same,
  with_reg-other,
}

-- The word of `movw` or `movt`, as a sum of its fields.
abbrev half_word : ℕ → ℕ → ℕ → ℕ
half_word kind rd v =
    ((60 + v / 2 ^ 11 % 2) * 16 + kind) * 2 ^ 22
    + v / 2 ^ 12 % 2 ^ 4 * 2 ^ 16
    + v / 2 ^ 8 % 2 ^ 3 * 2 ^ 12
    + rd * 2 ^ 8
    + v % 2 ^ 8

fields :
    (kind i i4 i3 rd i8 : ℕ)
    → kind < 16
    → i < 2
    → i4 < 16
    → i3 < 8
    → rd < 16
    → i8 < 2 ^ 8
    → bit_or
        (bit_or
          (bit_or
            (bit_or (bit_or (0x3c * 2 ^ 26 + kind * 2 ^ 22) (i * 2 ^ 26)) (i4 * 2 ^ 16))
            (i3 * 2 ^ 12))
          (rd * 2 ^ 8))
        i8
      ≡ ((60 + i) * 16 + kind) * 2 ^ 22 + i4 * 2 ^ 16 + i3 * 2 ^ 12 + rd * 2 ^ 8 + i8
fields kind i i4 i3 rd i8 hk hi h4 h3 hr h8 = ground (
  arith,
  bit_or-above 26 0x3c i (kind * 2 ^ 22) (omega arith),
  bit_or_fields 2 15 i (omega arith),
  bit_or_fields 22 ((60 + i) * 16 + kind) (i4 * 2 ^ 16) (omega arith),
  bit_or_fields 16 (((60 + i) * 16 + kind) * 2 ^ 6 + i4) (i3 * 2 ^ 12) (omega arith),
  bit_or_fields 12 ((((60 + i) * 16 + kind) * 2 ^ 6 + i4) * 16 + i3) (rd * 2 ^ 8) (omega arith),
  bit_or_fields 8 (((((60 + i) * 16 + kind) * 2 ^ 6 + i4) * 16 + i3) * 16 + rd) i8 h8,
)

mov_half_as_sum :
    (kind rd v : ℕ)
    → kind < 16
    → rd < 16
    → v < 2 ^ 16
    → mov_half (0x3c * 2 ^ 26 + kind * 2 ^ 22) rd v ≡ half_word kind rd v
mov_half_as_sum kind rd v hk hr hv =
    let a = bit_and_shift 12 0xf v in
    let b = bit_and_shift 11 0x1 v in
    let c = bit_and_shift 8 0x7 v in
    let sum =
      fields kind (v / 2 ^ 11 % 2) (v / 2 ^ 12 % 2 ^ 4) (v / 2 ^ 8 % 2 ^ 3) rd (v % 2 ^ 8) hk
        (omega arith) (omega arith) (omega arith) hr (omega arith) in
    let i4 : v / 2 ^ 12 % 2 ^ 4 * 2 ^ 12 / 2 ^ 12 * 2 ^ 16 % 2 ^ 32 ≡ v / 2 ^ 12 % 2 ^ 4 * 2 ^ 16 =
      omega arith in
    let i : v / 2 ^ 11 % 2 * 2 ^ 11 / 2 ^ 11 * 2 ^ 26 % 2 ^ 32 ≡ v / 2 ^ 11 % 2 * 2 ^ 26 =
      omega arith in
    let i3 : v / 2 ^ 8 % 2 ^ 3 * 2 ^ 8 / 2 ^ 8 * 2 ^ 12 % 2 ^ 32 ≡ v / 2 ^ 8 % 2 ^ 3 * 2 ^ 12 =
      omega arith in
    let r : rd * 2 ^ 8 % 2 ^ 32 ≡ rd * 2 ^ 8 = omega arith in
    rw
      (
        a,
        b,
        c,
        bit_and_mask 4 (v / 2 ^ 12),
        bit_and_mask 1 (v / 2 ^ 11),
        bit_and_mask 3 (v / 2 ^ 8),
        bit_and_mask 8 v,
        i4,
        i,
        i3,
        r,
      )
      sum

-- What the word does, where its kind is that of `movw` or `movt`.
half_word-exec :
    (kind rd v : ℕ) (s : Arm)
    → kind < 16
    → rd < 16
    → v < 2 ^ 16
    → let w = half_word kind rd v in
      (w / 2 ^ 27 ≡ 30)
      × (w / 2 ^ 20 % 2 ^ 6 ≡ kind * 4)
      × (w / 2 ^ 15 % 2 ≡ 0)
      × (w / 2 ^ 8 % 2 ^ 4 ≡ rd)
      × (half_constant w ≡ v)
      × (w < 2 ^ 32)
      × (leb 0xe800 (w / 2 ^ 16) ≡ true)
half_word-exec kind rd v s hk hr hv =
    (omega arith, omega arith, omega arith, omega arith, omega arith, omega arith, ground arith)

movw-exec :
    (rd v : ℕ) (s : Arm)
    → rd < 16
    → v < 2 ^ 16
    → exec32 (half_word 9 rd v) s ≡ some (with_reg s rd v)
unfolding exec32
movw-exec rd v s hr hv =
    let (e27, e20, e15, e8, constant, small, wide) = half_word-exec 9 rd v s (omega arith) hr hv in
    rw (e27, e20, e15, e8, constant) refl

movt-exec :
    (rd v : ℕ) (s : Arm)
    → rd < 16
    → v < 2 ^ 16
    → exec32 (half_word 11 rd v) s ≡ some (with_reg s rd (v * 2 ^ 16 + s.regs rd % 2 ^ 16))
unfolding exec32
movt-exec rd v s hr hv =
    let (e27, e20, e15, e8, constant, small, wide) = half_word-exec 11 rd v s (omega arith) hr hv in
    rw (e27, e20, e15, e8, constant) refl

-- Code that puts a value into a register, leaves the other registers as they are, and goes on.
abbrev pub Loads : Code → Arm → ℕ → ℕ → Type 0
Loads code s rd v =
    (t : Arm) × ((rest : Code) → run (code ++ rest) s ≡ run rest t)
    × (t.regs rd ≡ v)
    × ((r : ℕ) → r ≢ rd → t.regs r ≡ s.regs r)

with_reg-Loads :
    (code : Code) (s : Arm) (rd v : ℕ)
    → ((rest : Code) → run (code ++ rest) s ≡ run rest (with_reg s rd v))
    → Loads code s rd v
with_reg-Loads code s rd v goes =
    (with_reg s rd v, goes, with_reg-same s rd v, with_reg-other s rd v)

movs_as_sum :
    (rd val : ℕ)
    → rd < 8
    → val < 2 ^ 8
    → bit_or (bit_or 0x2000 (rd * 2 ^ 8 % 2 ^ 32)) val ≡ 0x2000 + rd * 2 ^ 8 + val
movs_as_sum rd val hr hv =
    ground (arith, bit_or_fields 13 1 (rd * 2 ^ 8) (omega arith), bit_or_fields 8 (32 + rd) val hv)

movs-Loads :
    (rd val : ℕ) (s : Arm)
    → rd < 8
    → val < 2 ^ 8
    → Loads (emit2 (bit_or (bit_or 0x2000 (rd * 2 ^ 8 % 2 ^ 32)) val)) s rd val
unfolding emit2 exec16
movs-Loads rd val s hr hv =
    let h = 0x2000 + rd * 2 ^ 8 + val in
    let whole : h % 2 ^ 16 ≡ h = omega arith in
    let kind : h / 2 ^ 11 == 4 ≡ true = ground arith in
    let at : h / 2 ^ 8 % 8 ≡ rd = omega arith in
    let constant : h % 2 ^ 8 ≡ val = omega arith in
    let narrow : leb 0xe800 h ≡ false = ground arith in
    rw (movs_as_sum rd val hr hv, whole)
      (with_reg-Loads (h ∷ []) s rd val
        (λ rest. run-narrow h rest s (with_reg s rd val) narrow (rw (kind, at, constant) refl)))

half_word-run :
    (kind rd v : ℕ) (s t : Arm)
    → kind < 16
    → rd < 16
    → v < 2 ^ 16
    → exec32 (half_word kind rd v) s ≡ some t
    → (rest : Code) → run (emit4 (half_word kind rd v) ++ rest) s ≡ run rest t
unfolding emit4
half_word-run kind rd v s t hk hr hv e rest =
    let (e27, e20, e15, e8, constant, small, wide) = half_word-exec kind rd v s hk hr hv in
    run-wide (half_word kind rd v) rest s t small wide e

module _ (rd val : ℕ) (low : rd < 13) where
  narrow : u8 rd ≡ rd
  narrow = omega arith

  short_form :
      (leb val 0xff && ltb rd 8) ≡ true
      → emit_mov_imm rd val ≡ emit2 (bit_or (bit_or 0x2000 (rd * 2 ^ 8 % 2 ^ 32)) val)
  unfolding emit_mov_imm
  short_form e = rw (narrow, e) refl

  word_form :
      (leb val 0xff && ltb rd 8) ≡ false
      → ltb 0xffff val ≡ false
      → emit_mov_imm rd val ≡ emit4 (half_word 9 rd val)
  unfolding emit_mov_imm
  word_form e b =
      let same : val % 2 ^ 16 ≡ val = ground arith in
      let sum = mov_half_as_sum 9 rd val (omega arith) (omega arith) (ground arith) in
      rw (narrow, e, b, bit_and_mask 16 val, same, append_nil) (ap (λ (w : ℕ). emit4 w) sum)

  long_form :
      (leb val 0xff && ltb rd 8) ≡ false
      → ltb 0xffff val ≡ true
      → val < 2 ^ 32
      → emit_mov_imm rd val
        ≡ emit4 (half_word 9 rd (val % 2 ^ 16)) ++ emit4 (half_word 11 rd (val / 2 ^ 16))
  unfolding emit_mov_imm
  long_form e b small =
      let first = mov_half_as_sum 9 rd (val % 2 ^ 16) (omega arith) (omega arith) (omega arith) in
      let second = mov_half_as_sum 11 rd (val / 2 ^ 16) (omega arith) (omega arith) (omega arith) in
      rw (narrow, e, b, bit_and_mask 16 val)
        (ap (λ (w : ℕ). emit4 w ++ emit4 (mov_half 0xf2c00000 rd (val / 2 ^ 16))) first
          ∙ ap (λ (w : ℕ). emit4 (half_word 9 rd (val % 2 ^ 16)) ++ emit4 w) second)

-- `emit_mov_imm` loads the constant, in one, two or four half-words, for every register up to r12,
-- and leaves the other registers as they are.
pub emit_mov_imm-Loads :
    (rd val : ℕ) (s : Arm) → rd < 13 → val < 2 ^ 32 → Loads (emit_mov_imm rd val) s rd val
emit_mov_imm-Loads rd val s hr hv = elim (Bool-cases (leb val 0xff && ltb rd 8)) [
  | inl e ↦ rw (short_form rd val hr e) (movs-Loads rd val s (ground arith) (ground arith))
  | inr e ↦ elim (Bool-cases (ltb 0xffff val)) [
    | inl b ↦
        let low = val % 2 ^ 16 in
        let high = val / 2 ^ 16 in
        let t = with_reg s rd low in
        let u = with_reg t rd (high * 2 ^ 16 + t.regs rd % 2 ^ 16) in
        let code = emit4 (half_word 9 rd low) ++ emit4 (half_word 11 rd high) in
        let goes : (rest : Code) → run (code ++ rest) s ≡ run rest u = λ rest. rw append_assoc (
          half_word-run 9 rd low s t (omega arith) (omega arith) (omega arith)
            (movw-exec rd low s (omega arith) (omega arith)) (emit4 (half_word 11 rd high) ++ rest)
          ∙ half_word-run 11 rd high t u (omega arith) (omega arith) (omega arith)
              (movt-exec rd high t (omega arith) (omega arith)) rest) in
        rw (long_form rd val hr e b hv) (
          u,
          goes,
          with_reg-same t rd (high * 2 ^ 16 + t.regs rd % 2 ^ 16)
              ∙ omega (arith, with_reg-same s rd low),
          λ r other.
              with_reg-other t rd (high * 2 ^ 16 + t.regs rd % 2 ^ 16) r other
              ∙ with_reg-other s rd low r other,
        )
    | inr b ↦ rw (word_form rd val hr e b) (
        with_reg-Loads (emit4 (half_word 9 rd val)) s rd val (
          half_word-run 9 rd val s (with_reg s rd val) (omega arith) (omega arith) (ground arith)
            (movw-exec rd val s (omega arith) (ground arith))))
  ]
]
