-- ===== src/Jit/Carries.antt =====
-- The words of three registers that libebpf/src/jit_thumb2.c emits for 64-bit sums and differences,
-- and what they do.
use rapid_patch_runtime_ae.Common.{
  ℕ, ◌+◌, ◌-◌, ◌*◌, ◌/◌, ◌%◌, ◌^◌, ◌≤◌, ◌<◌, ◌≡◌, refl, arith, true, false, leb, some, ◌++◌, bit_or,
}
use rapid_patch_runtime_ae.Common.Bits.{bit_or_fields}
use rapid_patch_runtime_ae.Jit.Encode.Alu.{sub_reg_t2, sbcw_t2}
use rapid_patch_runtime_ae.Jit.Emit.Registers.{Code, emit4}
use rapid_patch_runtime_ae.Jit.Arm.{Arm, add_with_carry, exec32, run, run-wide}

-- A word of three registers, by the opcode in its upper twelve bits.
abbrev pub three : ℕ → ℕ → ℕ → ℕ → ℕ
three op rn rd rm = op * 2 ^ 20 + rn * 2 ^ 16 + rd * 2 ^ 8 + rm

pub three_as_sum :
    (op rn rd rm : ℕ)
    → rn < 16
    → rd < 16
    → rm < 16
    → bit_or (bit_or (bit_or (op * 2 ^ 20) (rn * 2 ^ 16 % 2 ^ 32)) (rd * 2 ^ 8 % 2 ^ 32)) rm
      ≡ three op rn rd rm
three_as_sum op rn rd rm hn hd hm = ground (
  arith,
  bit_or_fields 20 op (rn * 2 ^ 16) (omega arith),
  bit_or_fields 16 (op * 16 + rn) (rd * 2 ^ 8) (omega arith),
  bit_or_fields 8 ((op * 16 + rn) * 2 ^ 8 + rd) rm (omega arith),
)

zero_field : (h : ℕ) → bit_or h 0 ≡ h
zero_field h = ground (arith, bit_or_fields 0 h 0 (omega arith))

pub subs_as_sum : (rd rm : ℕ) → rd < 16 → rm < 16 → sub_reg_t2 rd rd rm 0 0 1 ≡ three 0xebb rd rd rm
unfolding sub_reg_t2
subs_as_sum rd rm hd hm =
    rw (zero_field, zero_field, zero_field) (three_as_sum 0xebb rd rd rm hd hd hm)

pub sbc_as_sum : (rd rm : ℕ) → rd < 16 → rm < 16 → sbcw_t2 rd rd rm 0 0 0 ≡ three 0xeb6 rd rd rm
unfolding sbcw_t2
sbc_as_sum rd rm hd hm =
    rw (zero_field, zero_field, zero_field) (three_as_sum 0xeb6 rd rd rm hd hd hm)

three-fields :
    (op rn rd rm : ℕ)
    → 0xe80 ≤ op
    → op < 0xf00
    → rn < 16
    → rd < 16
    → rm < 16
    → let w = three op rn rd rm in
      (w / 2 ^ 27 ≡ op / 2 ^ 7)
      × (w / 2 ^ 20 ≡ op)
      × (w / 2 ^ 16 % 2 ^ 4 ≡ rn)
      × (w / 2 ^ 8 % 2 ^ 4 ≡ rd)
      × (w % 2 ^ 4 ≡ rm)
      × (w / 2 ^ 12 % 2 ^ 4 ≡ 0)
      × (w / 2 ^ 4 % 2 ^ 4 ≡ 0)
      × (w < 2 ^ 32)
      × (leb 0xe800 (w / 2 ^ 16) ≡ true)
three-fields op rn rd rm ha hb hn hd hm = (
  omega arith,
  omega arith,
  omega arith,
  omega arith,
  omega arith,
  omega arith,
  omega arith,
  omega arith,
  ground arith,
)

-- What the four words do.
module _ (rn rd rm : ℕ) (s : Arm) (hn : rn < 16) (hd : rd < 16) (hm : rm < 16) where
  pub adds-exec :
      exec32 (three 0xeb1 rn rd rm) s ≡ some (add_with_carry s rd (s.regs rn) (s.regs rm) 0 true)
  unfolding exec32
  adds-exec =
      let (e27, e20, en, ed, em, z1, z2, small, wide) =
        three-fields 0xeb1 rn rd rm (omega arith) (omega arith) hn hd hm in
      rw (e27, e20, en, ed, em, z1, z2) refl

  pub adc-exec :
      exec32 (three 0xeb4 rn rd rm) s
      ≡ some (add_with_carry s rd (s.regs rn) (s.regs rm) s.carry false)
  unfolding exec32
  adc-exec =
      let (e27, e20, en, ed, em, z1, z2, small, wide) =
        three-fields 0xeb4 rn rd rm (omega arith) (omega arith) hn hd hm in
      rw (e27, e20, en, ed, em, z1, z2) refl

  pub subs-exec :
      exec32 (three 0xebb rn rd rm) s
      ≡ some (add_with_carry s rd (s.regs rn) (2 ^ 32 - 1 - s.regs rm) 1 true)
  unfolding exec32
  subs-exec =
      let (e27, e20, en, ed, em, z1, z2, small, wide) =
        three-fields 0xebb rn rd rm (omega arith) (omega arith) hn hd hm in
      rw (e27, e20, en, ed, em, z1, z2) refl

  pub sbc-exec :
      exec32 (three 0xeb6 rn rd rm) s
      ≡ some (add_with_carry s rd (s.regs rn) (2 ^ 32 - 1 - s.regs rm) s.carry false)
  unfolding exec32
  sbc-exec =
      let (e27, e20, en, ed, em, z1, z2, small, wide) =
        three-fields 0xeb6 rn rd rm (omega arith) (omega arith) hn hd hm in
      rw (e27, e20, en, ed, em, z1, z2) refl

  pub three-run :
      (op : ℕ) (t : Arm)
      → 0xe80 ≤ op
      → op < 0xf00
      → exec32 (three op rn rd rm) s ≡ some t
      → (rest : Code) → run (emit4 (three op rn rd rm) ++ rest) s ≡ run rest t
  unfolding emit4
  three-run op t ha hb e rest =
      let (e27, e20, en, ed, em, z1, z2, small, wide) = three-fields op rn rd rm ha hb hn hd hm in
      run-wide (three op rn rd rm) rest s t small wide e
