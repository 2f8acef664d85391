-- ===== src/Vm/Step.antt =====
-- One round of the loop of `ebpf_vm_exec` in libebpf/src/ebpf_vm.c.
use rapid_patch_runtime_ae.Common.{
  ℕ, ◌+◌, ◌*◌, ◌^◌, Bool, true, false, ◌==◌, leb, not, ◌&&◌, ◌||◌, if◌then◌else◌, get_elem?, u16,
  u32, u64, sext16, sext32,
}
use rapid_patch_runtime_ae.Vm.Inst.{Inst, Op, Cond, Operand, Size, decode}
use rapid_patch_runtime_ae.Vm.Memory.{load, store}
use rapid_patch_runtime_ae.Vm.State.{
  Vm, Frame, State, Result, ok, stop, returned, rejected, ◌>>=◌, ◌>>◌, require, present, get_reg,
  set_reg,
}
use rapid_patch_runtime_ae.Vm.Alu.{
  check_divisor, alu32_op, alu64_op, neg32_op, neg64_op, le_op, be_op, holds, jump_imm,
}

abbrev pub stack_size : ℕ
stack_size = 128

-- `bounds_check`. The pointers are `u32 *` when the sizes are added, so that each counts
-- fourfold; addresses are 32 bits wide.
unfoldable pub bounds_check : Vm → Frame → ℕ → ℕ → Bool
bounds_check vm f a size =
    let addr = u32 a in
    let end = u32 (addr + 4 * size) in
    if not vm.bounds_check_enabled
    then true
    else (not (f.mem == 0) && leb f.mem addr && leb end (u32 (f.mem + 4 * f.mem_len)))
      || (leb f.stack addr && leb end (u32 (f.stack + 4 * stack_size)))

abbrev pub bytes : Size → ℕ
bytes Size.b = 1
bytes Size.h = 2
bytes Size.w = 4
bytes Size.dw = 8

-- A register plus `inst->offset`, in 64 bits.
abbrev pub displace : ℕ → Inst → ℕ
displace v i = u64 (v + sext16 i.offset)

-- `pc += inst->offset`.
abbrev pub branch : State → Inst → State
branch s i = record s { pc = u16 (s.pc + i.offset) }

-- An operand that is `SRC`, or the given reading of `IMM`.
abbrev pub operand : State → Inst → Operand → ℕ → Result ℕ
operand s i Operand.imm reading = ok reading
operand s i Operand.reg reading = get_reg s i.src

module _ (vm : Vm) (f : Frame) where
  abbrev pub checked : Bool → ℕ → Size → Result (Unit {0})
  checked needed addr size =
      if needed then require (bounds_check vm f addr (bytes size)) rejected else ok tt

  -- `EBPF_OP_LDXW` alone has its bounds check commented out.
  abbrev pub load_is_checked : Size → Bool
  load_is_checked Size.w = false
  load_is_checked _ = true

  unfoldable pub exec_load : Size → Inst → State → Result State
  exec_load size i s = do
    base ← get_reg s i.src
    checked (load_is_checked size) (displace base i) size
    v ← present (load s.memory (u32 (displace base i)) (bytes size))
    set_reg s i.dst v

  -- `BOUNDS_CHECK_STORE` tests `reg[inst->src]`, while the address comes from `DST`.
  unfoldable pub exec_store : Size → Inst → ℕ → State → Result State
  exec_store size i v s = do
    tested ← get_reg s i.src
    checked true (displace tested i) size
    base ← get_reg s i.dst
    m ← present (store s.memory (u32 (displace base i)) (bytes size) v)
    ok (record s { memory = m })

  -- `EBPF_OP_LDDW` takes the upper half from the following instruction.
  unfoldable pub exec_lddw : Inst → State → Result State
  exec_lddw i s = do
    following ← present (get_elem? vm.insts s.pc)
    set_reg (record s { pc = u16 (s.pc + 1) }) i.dst (u32 i.imm + u32 following.imm * 2 ^ 32)

  unfoldable pub exec_jump : Cond → Operand → Inst → State → Result State
  exec_jump c o i s = do
    x ← operand s i o (jump_imm c i.imm)
    d ← get_reg s i.dst
    ok (if holds c d x then branch s i else s)

  -- `EBPF_OP_CALL`: the index `imm` is not checked against the table.
  unfoldable pub exec_call : Inst → State → Result State
  exec_call i s = do
    slot ← present (get_elem? vm.ext_funcs i.imm)
    fn ← present slot
    a1 ← get_reg s 1
    a2 ← get_reg s 2
    a3 ← get_reg s 3
    a4 ← get_reg s 4
    a5 ← get_reg s 5
    let result = fn a1 a2 a3 a4 a5 s.memory
    set_reg (record s { memory = result.1 }) 0 result.0

  -- The switch, after `pc++`.
  unfoldable pub exec_op : Op → Inst → State → Result State
  unfolding exec_load exec_store exec_lddw exec_jump exec_call
  exec_op (Op.alu32 a o) i s = do
    x ← operand s i o i.imm
    check_divisor a o x
    d ← get_reg s i.dst
    r ← alu32_op a d x
    set_reg s i.dst r
  exec_op (Op.alu64 a o) i s = do
    x ← operand s i o (sext32 i.imm)
    check_divisor a o x
    d ← get_reg s i.dst
    r ← alu64_op a d x (sext32 i.imm)
    set_reg s i.dst r
  exec_op Op.neg32 i s = do d ← get_reg s i.dst; set_reg s i.dst (neg32_op d)
  exec_op Op.neg64 i s = do d ← get_reg s i.dst; set_reg s i.dst (neg64_op d)
  exec_op Op.le i s = do d ← get_reg s i.dst; set_reg s i.dst (le_op i.imm d)
  exec_op Op.be i s = do d ← get_reg s i.dst; set_reg s i.dst (be_op i.imm d)
  exec_op (Op.ldx size) i s = exec_load size i s
  exec_op (Op.st size) i s = exec_store size i (sext32 i.imm) s
  exec_op (Op.stx size) i s = do v ← get_reg s i.src; exec_store size i v s
  exec_op Op.lddw i s = exec_lddw i s
  exec_op Op.ja i s = ok (branch s i)
  exec_op (Op.jump c o) i s = exec_jump c o i s
  exec_op Op.call i s = exec_call i s
  exec_op Op.exit i s = get_reg s 0 >>= λ r. stop (returned r)
  exec_op Op.unknown i s = ok s

  -- Fetch, `pc++` and the switch. `pc` is never compared with the number of instructions.
  unfoldable pub step : State → Result State
  step s = do
    i ← present (get_elem? vm.insts s.pc)
    exec_op (decode i.opcode) i (record s { pc = u16 (s.pc + 1) })
