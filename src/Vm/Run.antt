-- ===== src/Vm/Run.antt =====
-- `ebpf_vm_exec` of libebpf/src/ebpf_vm.c: the loop with its instruction budget.
use rapid_patch_runtime_ae.Common.{ℕ, zero, suc, ◌+◌, List, Bool, true, false, ltb, set, u64, not}
use rapid_patch_runtime_ae.Vm.State.{
  Vm, Frame, State, ok, stop, Outcome, ended, iter_limit, out_of_fuel,
}
use rapid_patch_runtime_ae.Vm.Memory.{Memory}
use rapid_patch_runtime_ae.Vm.Step.{step, stack_size}

abbrev pub max_iters : ℕ
max_iters = 0x8000

-- `iters_check`.
unfoldable pub iters_check : ℕ → Bool
iters_check tick = not (ltb max_iters tick)

-- The loop, `tick` being the value before `tick++`.
unfoldable pub loop : Vm → Frame → ℕ → ℕ → State → Outcome
loop vm f zero tick s = out_of_fuel
loop vm f (suc fuel) tick s = elim (step vm f s) [
  | stop o ↦ ended o
  | ok t ↦ elim (iters_check tick) [ true ↦ loop vm f fuel (tick + 1) t | false ↦ iter_limit ]
]

-- `reg[1]` and `reg[10]` are set; the other registers hold what the stack held, `regs`.
unfoldable pub entry : Frame → List ℕ → Memory → State
entry f regs m = record {
  regs = set (set regs 1 (u64 f.mem)) 10 (u64 (f.stack + stack_size));
  pc = 0;
  memory = m;
}

-- `tick` is at most `max_iters + 1` when it is tested, so that many rounds and one more are run.
unfoldable pub ebpf_vm_exec : Vm → Frame → List ℕ → Memory → Outcome
unfolding entry loop step
ebpf_vm_exec vm f regs m = loop vm f (max_iters + 2) 0 (entry f regs m)
