-- ===== src/Vm/Opcodes.antt =====
-- The labels of the interpreter's switch are distinct bytes, so that each is reached.
use rapid_patch_runtime_ae.Common.{
  ℕ, ◌<◌, ◌≡◌, refl, arith, List, [], ◌∷◌, ◌==◌, ==_iff, Bool-cases, inl, inr, ◌⊎◌,
}
use rapid_patch_runtime_ae.Vm.Inst.{Op, Alu, Cond, Operand, Size, encode, decode, select, labels}

-- Every operation but `unknown`, which has no label.
abbrev pub HasLabel : Op → Type 0
HasLabel Op.unknown = ⊥
HasLabel _ = Unit

-- The macro value is a byte, and the switch on it reaches the operation's case.
abbrev pub Reached : Op → Type 0
Reached op = (encode op < 256) × (decode (encode op) ≡ op)

alu32-Reached : (a : Alu) (s : Operand) → Reached (Op.alu32 a s)
unfolding decode
alu32-Reached Alu.add Operand.imm = (omega arith, refl)
alu32-Reached Alu.add Operand.reg = (omega arith, refl)
alu32-Reached _ Operand.imm = (omega arith, refl)
alu32-Reached _ Operand.reg = (omega arith, refl)

alu64-Reached : (a : Alu) (s : Operand) → Reached (Op.alu64 a s)
unfolding decode
alu64-Reached Alu.add Operand.imm = (omega arith, refl)
alu64-Reached Alu.add Operand.reg = (omega arith, refl)
alu64-Reached _ Operand.imm = (omega arith, refl)
alu64-Reached _ Operand.reg = (omega arith, refl)

jump-Reached : (c : Cond) (s : Operand) → Reached (Op.jump c s)
unfolding decode
jump-Reached Cond.jeq Operand.imm = (omega arith, refl)
jump-Reached Cond.jeq Operand.reg = (omega arith, refl)
jump-Reached _ Operand.imm = (omega arith, refl)
jump-Reached _ Operand.reg = (omega arith, refl)

size-Reached : (s : Size) → (Reached (Op.ldx s)) × (Reached (Op.st s)) × (Reached (Op.stx s))
unfolding decode
size-Reached Size.w = ((omega arith, refl), (omega arith, refl), (omega arith, refl))
size-Reached _ = ((omega arith, refl), (omega arith, refl), (omega arith, refl))

-- Each operation's macro value is a byte, and the switch on that byte reaches that operation's
-- case and no other.
pub decode-encode : (op : Op) → HasLabel op → (encode op < 256) × (decode (encode op) ≡ op)
unfolding decode
decode-encode (Op.alu32 a s) h = alu32-Reached a s
decode-encode (Op.alu64 a s) h = alu64-Reached a s
decode-encode (Op.jump c s) h = jump-Reached c s
decode-encode (Op.ldx s) h = (size-Reached s).0
decode-encode (Op.st s) h = (size-Reached s).1
decode-encode (Op.stx s) h = (size-Reached s).2
decode-encode Op.unknown h = absurd h
decode-encode _ h = (omega arith, refl)

select_sound :
    (code : ℕ) (ops : List Op) → (select code ops ≡ Op.unknown) ⊎ (encode (select code ops) ≡ code)
unfolding select
select_sound code [] = inl refl
select_sound code (op ∷ ops) = elim (Bool-cases (encode op == code)) [
  | inl hit ↦ rw hit (inr ((==_iff _ code).0 hit))
  | inr miss ↦ rw miss (select_sound code ops)
]

-- An opcode either falls through the switch or is the macro value of the case that it reaches.
pub decode_sound : (code : ℕ) → (decode code ≡ Op.unknown) ⊎ (encode (decode code) ≡ code)
unfolding decode
decode_sound code = select_sound code labels
