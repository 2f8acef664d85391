-- ===== src/Vm/Inst.antt =====
-- libebpf/src/ebpf_inst.h: the instruction format and the opcode macros.
use rapid_patch_runtime_ae.Common.{ℕ, List, [], ◌∷◌, ◌++◌, ◌==◌, if◌then◌else◌, bit_or}

-- `offset` and `imm` are the bit patterns of the source's `s16` and `s32`.
pub record Inst : Type 0 where
  pub opcode : ℕ
  pub dst : ℕ
  pub src : ℕ
  pub offset : ℕ
  pub imm : ℕ

-- The operations that come with both an immediate and a register operand.
pub data Alu : Type 0 where
  add sub mul div or and lsh rsh modulo xor mov arsh : Alu

pub data Cond : Type 0 where
  jeq jgt jge jset jne jsgt jsge jlt jle jslt jsle : Cond

pub data Operand : Type 0 where
  imm reg : Operand

pub data Size : Type 0 where
  w h b dw : Size

-- One constructor for each label of the interpreter's switch; `unknown` is the missing default.
pub data Op : Type 0 where
  alu32 : Alu → Operand → Op
  alu64 : Alu → Operand → Op
  neg32 neg64 le be : Op
  ldx st stx : Size → Op
  lddw ja : Op
  jump : Cond → Operand → Op
  call exit unknown : Op

abbrev pub cls_ld : ℕ
cls_ld = 0x00

abbrev pub cls_ldx : ℕ
cls_ldx = 0x01

abbrev pub cls_st : ℕ
cls_st = 0x02

abbrev pub cls_stx : ℕ
cls_stx = 0x03

abbrev pub cls_alu : ℕ
cls_alu = 0x04

abbrev pub cls_jmp : ℕ
cls_jmp = 0x05

abbrev pub cls_alu64 : ℕ
cls_alu64 = 0x07

abbrev pub src_bits : Operand → ℕ
src_bits imm = 0x00
src_bits reg = 0x08

abbrev pub size_bits : Size → ℕ
size_bits w = 0x00
size_bits h = 0x08
size_bits b = 0x10
size_bits dw = 0x18

abbrev pub mode_mem : ℕ
mode_mem = 0x60

abbrev pub alu_bits : Alu → ℕ
alu_bits add = 0x00
alu_bits sub = 0x10
alu_bits mul = 0x20
alu_bits div = 0x30
alu_bits or = 0x40
alu_bits and = 0x50
alu_bits lsh = 0x60
alu_bits rsh = 0x70
alu_bits modulo = 0x90
alu_bits xor = 0xa0
alu_bits mov = 0xb0
alu_bits arsh = 0xc0

abbrev pub cond_bits : Cond → ℕ
cond_bits jeq = 0x10
cond_bits jgt = 0x20
cond_bits jge = 0x30
cond_bits jset = 0x40
cond_bits jne = 0x50
cond_bits jsgt = 0x60
cond_bits jsge = 0x70
cond_bits jlt = 0xa0
cond_bits jle = 0xb0
cond_bits jslt = 0xc0
cond_bits jsle = 0xd0

-- The macro `EBPF_OP_…` of each label. `unknown` has none; 0x100 is no byte.
unfoldable pub encode : Op → ℕ
encode (alu32 a s) = bit_or (bit_or cls_alu (src_bits s)) (alu_bits a)
encode (alu64 a s) = bit_or (bit_or cls_alu64 (src_bits s)) (alu_bits a)
encode neg32 = bit_or cls_alu 0x80
encode neg64 = bit_or cls_alu64 0x80
encode le = bit_or (bit_or cls_alu 0x00) 0xd0
encode be = bit_or (bit_or cls_alu 0x08) 0xd0
encode (ldx s) = bit_or (bit_or cls_ldx mode_mem) (size_bits s)
encode (st s) = bit_or (bit_or cls_st mode_mem) (size_bits s)
encode (stx s) = bit_or (bit_or cls_stx mode_mem) (size_bits s)
encode lddw = bit_or (bit_or cls_ld 0x00) 0x18
encode ja = bit_or cls_jmp 0x00
encode (jump c s) = bit_or (bit_or cls_jmp (src_bits s)) (cond_bits c)
encode call = bit_or cls_jmp 0x80
encode exit = bit_or cls_jmp 0x90
encode unknown = 0x100

-- The labels of some operations, the immediate form before the register form.
abbrev both : {A : Type 0} → (A → Operand → Op) → List A → List Op
both f [] = []
both f (a ∷ rest) = f a imm ∷ (f a reg ∷ both f rest)

abbrev jump_labels : List Op
jump_labels =
    ja
      ∷ jump jeq reg
      ∷ jump jeq imm
      ∷ both (λ c s. jump c s) (jgt ∷ jge ∷ jlt ∷ jle ∷ jset ∷ jne ∷ jsgt ∷ jsge ∷ jslt ∷ jsle ∷ [])
    ++ (call ∷ exit ∷ [])

abbrev memory_labels : List Op
memory_labels =
    ldx dw
    ∷ ldx w
    ∷ ldx h
    ∷ ldx b
    ∷ st dw
    ∷ st w
    ∷ st h
    ∷ st b
    ∷ stx dw
    ∷ stx w
    ∷ stx h
    ∷ stx b
    ∷ lddw
    ∷ []

abbrev before_neg : List Alu
before_neg = add ∷ sub ∷ mul ∷ div ∷ or ∷ and ∷ lsh ∷ rsh ∷ []

abbrev after_neg : List Alu
after_neg = modulo ∷ xor ∷ mov ∷ arsh ∷ []

-- The labels of the switch, in its order.
unfoldable pub labels : List Op
labels =
    both (λ a s. alu32 a s) before_neg
    ++ (neg32 ∷ both (λ a s. alu32 a s) after_neg
        ++ (le ∷ be ∷ both (λ a s. alu64 a s) before_neg
            ++ (neg64 ∷ both (λ a s. alu64 a s) after_neg ++ (memory_labels ++ jump_labels))))

-- `switch (inst->opcode)`: the first label with that value; with none the switch does nothing.
unfoldable pub select : ℕ → List Op → Op
select code [] = unknown
select code (op ∷ ops) = if encode op == code then op else select code ops

unfoldable pub decode : ℕ → Op
unfolding select labels encode
decode code = select code labels
