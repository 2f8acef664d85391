-- ===== src/Vm/Effects.antt =====
-- What one instruction of `ebpf_vm_exec` can do to the state: it writes one register, moves `pc`,
-- replaces the memory, or calls a helper. A predicate closed under these holds after every one.
use rapid_patch_runtime_ae.Common.{true, ℕ, ◌+◌, u16, u32, sext32, get_elem?, Bool-cases, inl, inr}
use rapid_patch_runtime_ae.Vm.Inst.{Inst, Op, Size, Cond, Operand}
use rapid_patch_runtime_ae.Vm.Memory.{Memory, load, store}
use rapid_patch_runtime_ae.Vm.State.{
  Vm, Frame, State, Ensures, Ensures-bind, get_reg, set_reg, present,
}
use rapid_patch_runtime_ae.Vm.Alu.{
  check_divisor, alu32_op, alu64_op, holds, jump_imm, neg32_op, neg64_op, le_op, be_op,
}
use rapid_patch_runtime_ae.Vm.Step.{
  exec_op, exec_load, exec_store, exec_lddw, exec_jump, exec_call, branch, displace, operand,
  checked, load_is_checked, bytes,
}

-- The operations that write memory themselves, that call a helper, and that move `pc`.
abbrev pub Stores : Op → Type 0
Stores (Op.st _) = Unit
Stores (Op.stx _) = Unit
Stores _ = ⊥

abbrev pub Calls : Op → Type 0
Calls Op.call = Unit
Calls _ = ⊥

abbrev pub Jumps : Op → Type 0
Jumps Op.ja = Unit
Jumps (Op.jump _ _) = Unit
Jumps Op.lddw = Unit
Jumps _ = ⊥

pub record Closed (P : State → Type 0) (op : Op) (i : Inst) (s : State) : Type 0 where
  pub same : P s
  pub writes : (v : ℕ) → Ensures P (set_reg s i.dst v)
  pub branches : Jumps op → P (branch s i)
  pub skips : Jumps op → (v : ℕ) → Ensures P (set_reg (record s { pc = u16 (s.pc + 1) }) i.dst v)
  pub stores : Stores op → (m : Memory) → P (record s { memory = m })
  pub calls : Calls op → (m : Memory) (v : ℕ) → Ensures P (set_reg (record s { memory = m }) 0 v)

module _ (P : State → Type 0) (vm : Vm) (f : Frame) (i : Inst) (s : State) where
  load-Ensures :
      (size : Size)
      → ((v : ℕ) → Ensures P (set_reg s i.dst v))
      → Ensures P (exec_load vm f size i s)
  unfolding exec_load
  load-Ensures size h = Ensures-bind P (get_reg s i.src) _ λ base _.
      Ensures-bind P (checked vm f (load_is_checked vm f size) (displace base i) size) _ λ _ _.
        Ensures-bind P (present (load s.memory (u32 (displace base i)) (bytes size))) _ λ v _. h v

  store-Ensures :
      (size : Size) (v : ℕ)
      → ((m : Memory) → P (record s { memory = m }))
      → Ensures P (exec_store vm f size i v s)
  unfolding exec_store
  store-Ensures size v h = Ensures-bind P (get_reg s i.src) _ λ tested _.
      Ensures-bind P (checked vm f true (displace tested i) size) _ λ _ _.
        Ensures-bind P (get_reg s i.dst) _ λ base _.
          Ensures-bind P (present (store s.memory (u32 (displace base i)) (bytes size) v)) _
            λ m _. h m

  lddw-Ensures :
      ((v : ℕ) → Ensures P (set_reg (record s { pc = u16 (s.pc + 1) }) i.dst v))
      → Ensures P (exec_lddw vm f i s)
  unfolding exec_lddw
  lddw-Ensures h = Ensures-bind P (present (get_elem? vm.insts s.pc)) _ λ following _. h _

  jump-Ensures :
      (c : Cond) (o : Operand) → P s → P (branch s i) → Ensures P (exec_jump vm f c o i s)
  unfolding exec_jump
  jump-Ensures c o h k = Ensures-bind P (operand s i o (jump_imm c i.imm)) _ λ x _.
      Ensures-bind P (get_reg s i.dst) _ λ d _. elim (Bool-cases (holds c d x)) [
        | inl taken ↦ rw taken k
        | inr not_taken ↦ rw not_taken h
      ]

  call-Ensures :
      ((m : Memory) (v : ℕ) → Ensures P (set_reg (record s { memory = m }) 0 v))
      → Ensures P (exec_call vm f i s)
  unfolding exec_call
  call-Ensures h = Ensures-bind P (present (get_elem? vm.ext_funcs i.imm)) _ λ slot _.
      Ensures-bind P (present slot) _ λ fn _. Ensures-bind P (get_reg s 1) _ λ a1 _.
        Ensures-bind P (get_reg s 2) _ λ a2 _. Ensures-bind P (get_reg s 3) _ λ a3 _.
          Ensures-bind P (get_reg s 4) _ λ a4 _. Ensures-bind P (get_reg s 5) _ λ a5 _. h _ _

  -- The rule for every case of the switch.
  pub exec_op-Ensures : (op : Op) → Closed P op i s → Ensures P (exec_op vm f op i s)
  unfolding exec_op
  exec_op-Ensures (Op.alu32 a o) c = Ensures-bind P (operand s i o i.imm) _ λ x _.
      Ensures-bind P (check_divisor a o x) _ λ _ _.
        Ensures-bind P (get_reg s i.dst) _
          λ d _. Ensures-bind P (alu32_op a d x) _ λ r _. c.writes r
  exec_op-Ensures (Op.alu64 a o) c = Ensures-bind P (operand s i o (sext32 i.imm)) _ λ x _.
      Ensures-bind P (check_divisor a o x) _ λ _ _.
        Ensures-bind P (get_reg s i.dst) _
          λ d _. Ensures-bind P (alu64_op a d x (sext32 i.imm)) _ λ r _. c.writes r
  exec_op-Ensures Op.neg32 c = Ensures-bind P (get_reg s i.dst) _ λ d _. c.writes (neg32_op d)
  exec_op-Ensures Op.neg64 c = Ensures-bind P (get_reg s i.dst) _ λ d _. c.writes (neg64_op d)
  exec_op-Ensures Op.le c = Ensures-bind P (get_reg s i.dst) _ λ d _. c.writes (le_op i.imm d)
  exec_op-Ensures Op.be c = Ensures-bind P (get_reg s i.dst) _ λ d _. c.writes (be_op i.imm d)
  exec_op-Ensures (Op.ldx size) c = load-Ensures size c.writes
  exec_op-Ensures (Op.st size) c = store-Ensures size (sext32 i.imm) (c.stores tt)
  exec_op-Ensures (Op.stx size) c =
      Ensures-bind P (get_reg s i.src) _ λ v _. store-Ensures size v (c.stores tt)
  exec_op-Ensures Op.lddw c = lddw-Ensures (c.skips tt)
  exec_op-Ensures Op.ja c = c.branches tt
  exec_op-Ensures (Op.jump k o) c = jump-Ensures k o c.same (c.branches tt)
  exec_op-Ensures Op.call c = call-Ensures (c.calls tt)
  exec_op-Ensures Op.exit c = Ensures-bind P (get_reg s 0) _ λ r _. tt
  exec_op-Ensures Op.unknown c = c.same
