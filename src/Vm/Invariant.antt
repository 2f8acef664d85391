-- ===== src/Vm/Invariant.antt =====
-- What every instruction of `ebpf_vm_exec` keeps: the shape of the machine state, the registers
-- that it does not name, and the memory that it does not store to.
use rapid_patch_runtime_ae.Common.{
  ℕ, ◌+◌, ◌^◌, ◌<◌, ◌≡◌, ◌≢◌, ◌∙◌, refl, sym, arith, List, some, set, get_elem?, length, u64, u16,
  length-set, get_elem?-set_self, get_elem?-set_ne, get_elem?-lt, ◌⊎◌, inl, inr,
}
use mathlib.Core.Path.{subst}
use mathlib.Core.Option.{some-injective}
use native.Mathlib.Decide.{ℕ_discrete}
use rapid_patch_runtime_ae.Vm.Inst.{Inst, Op, decode}
use rapid_patch_runtime_ae.Vm.State.{
  Vm, Frame, State, IsState, ok, Ensures, Ensures-bind, Ensures-ok, get_reg, set_reg, present,
}
use rapid_patch_runtime_ae.Vm.Step.{step, exec_op}
use rapid_patch_runtime_ae.Vm.Effects.{Closed, Stores, Calls, Jumps, exec_op-Ensures}

set-width :
    (xs : List ℕ) (i v : ℕ)
    → ((j w : ℕ) → get_elem? xs j ≡ some w → w < 2 ^ 64)
    → (j w : ℕ) → get_elem? (set xs i (u64 v)) j ≡ some w
    → w < 2 ^ 64
set-width xs i v h j w e = elim (ℕ_discrete i j) [
  | no n ↦ h j w (sym (get_elem?-set_ne xs i j (u64 v) n) ∙ e)
  | yes p ↦
      let inside : i < length xs =
        omega (arith, p, length-set xs i (u64 v), get_elem?-lt (set xs i (u64 v)) j e) in
      let same : u64 v ≡ w = some-injective (u64 v) w (
        sym (get_elem?-set_self xs i (u64 v) inside)
        ∙ subst (λ k. get_elem? (set xs i (u64 v)) k ≡ some w) (sym p) e) in
      omega arith
]

set_reg-IsState : (s : State) (i v : ℕ) → IsState s → Ensures IsState (set_reg s i v)
set_reg-IsState s i v h = Ensures-bind IsState (get_reg s i) _ λ old e. record {
  reg_count = length-set s.regs i (u64 v) ∙ h.reg_count;
  reg_width = set-width s.regs i v h.reg_width;
  pc_width = h.pc_width;
}

move-IsState : (s : State) (p : ℕ) → IsState s → IsState (record s { pc = u16 p })
move-IsState s p h = record {
  reg_count = h.reg_count;
  reg_width = h.reg_width;
  pc_width = omega arith;
}

IsState-Closed : (op : Op) (i : Inst) (s : State) → IsState s → Closed IsState op i s
IsState-Closed op i s h = record {
  same = h;
  writes = λ v. set_reg-IsState s i.dst v h;
  branches = λ _. move-IsState s (s.pc + i.offset) h;
  skips = λ _ v.
      set_reg-IsState (record s { pc = u16 (s.pc + 1) }) i.dst v (move-IsState s (s.pc + 1) h);
  stores =
      λ _ m. record { reg_count = h.reg_count; reg_width = h.reg_width; pc_width = h.pc_width };
  calls = λ _ m v.
      set_reg-IsState (record s { memory = m }) 0 v
        (record { reg_count = h.reg_count; reg_width = h.reg_width; pc_width = h.pc_width });
}

-- After every round that goes on, `reg` still has its twelve 64-bit words and `pc` is a `u16`.
step-IsState :
    (vm : Vm) (f : Frame) (s : State) {t : State} → IsState s → step vm f s ≡ ok t → IsState t
unfolding step
step-IsState vm f s h e =
    Ensures-ok IsState (step vm f s)
      (Ensures-bind IsState (present (get_elem? vm.insts s.pc)) _ λ i _.
        let next : State = record s { pc = u16 (s.pc + 1) } in
        exec_op-Ensures IsState vm f i next (decode i.opcode)
          (IsState-Closed (decode i.opcode) i next (move-IsState s (s.pc + 1) h)))
      e

-- What an instruction leaves alone: every register but its destination (for a call, but `reg[0]`),
-- the memory unless it stores or calls, and `pc` unless it jumps or is two slots long.
record Keeps (op : Op) (i : Inst) (s t : State) : Type 0 where
  registers :
      (j : ℕ) → j ≢ i.dst → ((Calls op → ⊥) ⊎ (j ≢ 0)) → get_elem? t.regs j ≡ get_elem? s.regs j
  memory : (Stores op → ⊥) → (Calls op → ⊥) → t.memory ≡ s.memory
  pc : (Jumps op → ⊥) → t.pc ≡ s.pc

Keeps-Closed : (op : Op) (i : Inst) (s : State) → Closed (Keeps op i s) op i s
Keeps-Closed op i s = record {
  same = record { registers = λ j _ _. refl; memory = λ _ _. refl; pc = λ _. refl };
  writes = λ v. Ensures-bind (Keeps op i s) (get_reg s i.dst) _ λ old _. record {
    registers = λ j n _. get_elem?-set_ne s.regs i.dst j (u64 v) (λ e. n (sym e));
    memory = λ _ _. refl;
    pc = λ _. refl;
  };
  branches = λ jumps. record {
    registers = λ j _ _. refl;
    memory = λ _ _. refl;
    pc = λ stays. absurd (stays jumps);
  };
  skips = λ jumps v.
      Ensures-bind (Keeps op i s) (get_reg (record s { pc = u16 (s.pc + 1) }) i.dst) _ λ old _.
        record {
          registers = λ j n _. get_elem?-set_ne s.regs i.dst j (u64 v) (λ e. n (sym e));
          memory = λ _ _. refl;
          pc = λ stays. absurd (stays jumps);
        };
  stores = λ stores m. record {
    registers = λ j _ _. refl;
    memory = λ keeps _. absurd (keeps stores);
    pc = λ _. refl;
  };
  calls = λ calls m v. Ensures-bind (Keeps op i s) (get_reg (record s { memory = m }) 0) _ λ old _.
      record {
        registers = λ j _ c. elim c [
          | inl none ↦ absurd (none calls)
          | inr n ↦ get_elem?-set_ne s.regs 0 j (u64 v) (λ e. n (sym e))
        ];
        memory = λ _ keeps. absurd (keeps calls);
        pc = λ _. refl;
      };
}

exec_op-Keeps :
    (vm : Vm) (f : Frame) (op : Op) (i : Inst) (s : State) {t : State}
    → exec_op vm f op i s ≡ ok t
    → Keeps op i s t
exec_op-Keeps vm f op i s e =
    Ensures-ok (Keeps op i s) (exec_op vm f op i s)
      (exec_op-Ensures (Keeps op i s) vm f i s op (Keeps-Closed op i s)) e

-- An instruction that goes on changes no register but its destination or, if it is a call, but its
-- destination and `reg[0]`.
exec_op-registers :
    (vm : Vm) (f : Frame) (op : Op) (i : Inst) (s : State) {t : State} (j : ℕ)
    → exec_op vm f op i s ≡ ok t
    → j ≢ i.dst
    → (¬ Calls op) ⊎ (j ≢ 0)
    → get_elem? t.regs j ≡ get_elem? s.regs j
exec_op-registers vm f op i s j e = (exec_op-Keeps vm f op i s e).registers j

-- An instruction that goes on and neither stores, calls, jumps nor loads a two-slot constant leaves
-- the memory and `pc` alone.
pub exec_op-memory :
    (vm : Vm) (f : Frame) (op : Op) (i : Inst) (s : State) {t : State}
    → exec_op vm f op i s ≡ ok t
    → ¬ Stores op
    → ¬ Calls op
    → ¬ Jumps op
    → (t.memory ≡ s.memory) × (t.pc ≡ s.pc)
exec_op-memory vm f op i s e a b c = let k = exec_op-Keeps vm f op i s e in (k.memory a b, k.pc c)
