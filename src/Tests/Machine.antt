-- ===== src/Tests/Machine.antt =====
-- The interpreter's theorems at concrete programs, registers and memories.
use Prim.Native.Nat.{◌^◌, ◌%◌, ◌+◌, ◌<◌}
use mathlib.Core.List.{reverse}
use rapid_patch_runtime_ae.Common.{
  ℕ, ◌≡◌, ◌≢◌, refl, arith, List, [], ◌∷◌, none, some, true, false, if◌then◌else◌, ◌==◌, leb, set,
  u64,
}
use rapid_patch_runtime_ae.Vm.Inst.{Inst, Op, Alu, Cond, Operand, Size, encode, decode}
use rapid_patch_runtime_ae.Vm.State.{Vm, Frame, State, IsState, ok, returned, ended, out_of_fuel}
use rapid_patch_runtime_ae.Vm.Memory.{Memory, load, store}
use rapid_patch_runtime_ae.Vm.Alu.{alu32_op, alu64_op, check_divisor, holds}
use rapid_patch_runtime_ae.Vm.Step.{step, exec_op, exec_load, exec_store, bounds_check, bytes}
use rapid_patch_runtime_ae.Vm.Run.{iters_check, loop, entry, ebpf_vm_exec, max_iters}
use rapid_patch_runtime_ae.Vm.Swap.{swap16, swap32, swap64, little_bytes, swap-reverse}
use rapid_patch_runtime_ae.Vm.Opcodes.{decode-encode}
use rapid_patch_runtime_ae.Vm.Budget.{jump_back, ebpf_vm_exec_terminates}
use rapid_patch_runtime_ae.Vm.Access.{exec_load-exec_store}

abbrev registers : List ℕ
registers = 0 ∷ 0x1000 ∷ 7 ∷ 0x1_0000_0000 ∷ 0 ∷ 0 ∷ 0 ∷ 0 ∷ 0 ∷ 0 ∷ 0x2080 ∷ 0 ∷ []

-- 64 zero bytes from 0x1000 and 64 from 0x3000.
abbrev ram : Memory
ram a =
    if leb 0x1000 a
    then (if leb a 0x103f
        then some 0
        else if leb 0x3000 a
        then (if leb a 0x303f then some 0 else none)
        else none)
    else none

abbrev frame : Frame
frame = record { mem = 0x1000; mem_len = 64; stack = 0x2000 }

abbrev move_seven : Inst
move_seven = record {
  opcode = encode (Op.alu64 Alu.mov Operand.imm);
  dst = 0;
  src = 0;
  offset = 0;
  imm = 7;
}

abbrev leave : Inst
leave = record { opcode = encode Op.exit; dst = 0; src = 0; offset = 0; imm = 0 }

abbrev machine : Vm
machine = record { insts = move_seven ∷ leave ∷ []; bounds_check_enabled = true; ext_funcs = [] }

abbrev spinning : Vm
spinning = record { insts = jump_back ∷ leave ∷ []; bounds_check_enabled = false; ext_funcs = [] }

abbrev start : State
start = record { regs = registers; pc = 0; memory = ram }

program : Unit {0}
unfolding ebpf_vm_exec step exec_op decode encode alu64_op alu32_op holds bounds_check load store
    check_divisor iters_check
program = tt

returns_seven : ebpf_vm_exec machine frame registers ram ≡ ended (returned 7)
unfolding program
returns_seven = refl

start-IsState : IsState start
start-IsState = record { reg_count = refl; reg_width = grind arith; pc_width = omega arith }

ebpf_vm_exec_terminates_example :
    (loop machine frame (max_iters + 2 + 5) 0 (entry frame registers ram)
      ≡ ebpf_vm_exec machine frame registers ram)
    × (ebpf_vm_exec machine frame registers ram ≢ out_of_fuel)
ebpf_vm_exec_terminates_example = ebpf_vm_exec_terminates machine frame registers ram 5

abbrev add_register : Inst
add_register = record {
  opcode = encode (Op.alu64 Alu.add Operand.reg);
  dst = 0;
  src = 2;
  offset = 0;
  imm = 0;
}

abbrev after_add : State
after_add = record { regs = set registers 0 7; pc = 0; memory = ram }

-- `r1` points to the buffer and `r2` outside of it.
abbrev stray : State
stray = record { regs = set registers 2 0x3000; pc = 0; memory = ram }

abbrev store_word : Inst
store_word = record { opcode = encode (Op.stx Size.w); dst = 2; src = 1; offset = 0; imm = 0 }

abbrev store_half : Inst
store_half = record { opcode = encode (Op.stx Size.h); dst = 1; src = 1; offset = 4; imm = 0 }

abbrev load_half : Inst
load_half = record { opcode = encode (Op.ldx Size.h); dst = 3; src = 1; offset = 4; imm = 0 }

abbrev stored : State
stored = record start {
  memory = λ a. if a == 0x1005 then some 2 else if a == 0x1004 then some 1 else ram a;
}

exec_load-exec_store_example :
    exec_load machine frame Size.h load_half stored
    ≡ ok (record stored { regs = set start.regs 3 (u64 (0x9_0201 % 256 ^ bytes Size.h)) })
unfolding program exec_store
exec_load-exec_store_example =
    exec_load-exec_store machine frame Size.h store_half load_half 0x9_0201 start {t = stored}
      0x1000 0x1_0000_0000 refl refl refl refl refl refl

decode-encode_example :
    (encode (Op.jump Cond.jsle Operand.reg) < 256)
    × (decode (encode (Op.jump Cond.jsle Operand.reg)) ≡ Op.jump Cond.jsle Operand.reg)
decode-encode_example = decode-encode (Op.jump Cond.jsle Operand.reg) tt

swap-reverse_example :
    (little_bytes 2 (swap16 0x1234) ≡ reverse (little_bytes 2 0x1234))
    × (little_bytes 4 (swap32 0x1234) ≡ reverse (little_bytes 4 0x1234))
    × (little_bytes 8 (swap64 0x1234) ≡ reverse (little_bytes 8 0x1234))
swap-reverse_example = swap-reverse 0x1234

abbrev divide : Inst
divide = record { opcode = 0x3f; dst = 1; src = 2; offset = 0; imm = 16 }
