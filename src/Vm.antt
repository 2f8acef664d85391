-- ===== src/Vm.antt =====
-- The eBPF interpreter: libebpf/src/ebpf_vm.c over the instruction set of libebpf/src/ebpf_inst.h.
pub mod Inst
pub mod Opcodes
pub mod Swap
pub mod Memory
pub mod Alu
pub mod State
pub mod Step
pub mod Run
pub mod Budget
pub mod Effects
pub mod Invariant
pub mod Access
pub mod Arith
pub mod Lifecycle
