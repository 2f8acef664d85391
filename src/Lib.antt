-- ===== src/Lib.antt =====
-- RapidPatch runtime: hot patches for embedded devices. A patch is an eBPF program that a device runs
-- at a fixed or a dynamic patch point in its firmware. This library models the parts of the runtime
-- that decide what such a program does and how it is found, and proves what makes them correct.
--
-- Parts, with the files of this directory that model them:
--
-- - libebpf/src/ebpf_inst.h, the instruction set: Vm/Inst (the record, the opcode macros as `encode`,
--   the labels of the interpreter's switch in order as `labels`, `decode`); Vm/Opcodes.
-- - libebpf/src/ebpf_types.h, the byte swaps: Vm/Swap.
-- - libebpf/src/ebpf_vm.c, the interpreter `ebpf_vm_exec`: Vm/Memory (a flat little endian memory),
--   Vm/State (registers, pc, memory; the ways to stop), Vm/Alu (the arithmetic cases), Vm/Step
--   (`bounds_check` and one round of the loop), Vm/Run (`iters_check`, the loop). The theorems are
--   in Vm/Effects, Vm/Invariant, Vm/Access, Vm/Arith and Vm/Budget.
-- - libebpf/src/hashmap.c, the sorted array map that holds the fixed patches: Container/Search (the two
--   searches), Container/ArrayMap (the map), and theorems in Container/Sorted, Lookup, Shifts, Insert,
--   Update, SetGet, Remove and Misplaced.
-- - hotpatch/src/cortex-m4_fbp.c and hotpatch/src/utils.c, breakpoints: Point/Address (addresses of
--   instructions), Point/Branch (the generated branches), Point/Comparators (the flash patch and
--   breakpoint unit with `add_hw_bkpt`), Point/Mode (`set_patch_mode`); theorems in Point/Bounds.
-- - hotpatch/src/iotpatch.c, the registry of patches: Patch/Context (`patch_context`, the heap, the bit
--   filters), Patch/Registry (`notify_new_patch`, `load_local_patch_to_ctx` and what they call),
--   Patch/Lookup (the lookups at a patch point); theorems in Patch/Filter,
--   Patch/Nodes, Patch/Placing, Patch/Notify and Patch/FixedNotify.
--   The registry keeps fixed patches in an array map and asks the breakpoint unit for dynamic ones; a
--   lookup gives the patch whose program the interpreter runs.
-- - Dispatch/Points, the dispatch at a patch point: `run_patch_here` and `leave_fpb_bpkt` of
--   hotpatch/src/cortex-m4_fbp.c and `dispatch_fixed_patch_point` of
--   hotpatch/src/fixed_patch_points.c; the theorem that joins them to the registry is in
--   Dispatch/Verdicts. The run of a filter is a function of the patch and the frame.
-- - Vm/Lifecycle, the creation and destruction of machines with the shared, counted table of helpers
--   (libebpf/src/ebpf_vm.c), and Container/Growing, the `darray` of libebpf/src/hashmap.c.
-- - libebpf/src/jit_thumb2.h, jit_thumb2.c and jit.c, the compiler from eBPF to Thumb-2: Jit/CInt (C's
--   operators on 32-bit patterns), Jit/Encode (the encoders `_thumb16_…` and `_thumb32_…`), Jit/Emit
--   (the routines `_emit_…` and `emit_…`, each as the half-words that it emits), Jit/Cases and
--   Jit/Build (`build_inst`), Jit/Compile (`build_prologue`, `build_body`, `build_epilogue` and the two
--   passes of `jit_compile`), Jit/Entry (`gen_jit_code`). What the processor does with the code is
--   described in Jit/Targets (branches) and Jit/Arm (constants and sums). Theorems in Jit/Sizes,
--   Layout, Visits and Placed (both passes), WideBranch, Branches, Distances and Landing (jumps),
--   Constants, Carries and Sums. The loop over the program has `inst_num` rounds as fuel.
-- - hotpatch/src/patch_service.c, the service that takes patches from a connection: Service/Commands (the
--   status, `dispatch_patch_command`, the loop of `wait_for_patch`, the start under Linux); the theorem is in
--   Service/Ending. The sockets and the allocator are the record `Outside`; the loop has as many rounds of
--   fuel as the peer has bytes to send, and one.
-- - libebpf/src/ebpf_map.c, the hash map of strings: Table/Array (`DArray`), Table/Hash (`str_hash_fn`),
--   Table/Map (`Hashmap_set`, `Hashmap_get`, `Hashmap_delete`); theorems in Table/Search, Table/Changed and
--   Table/SetGet. Keys are addresses; the strings there are a function of the address, which the map reads
--   at each comparison, as the code does.
-- - hotpatch/src/dynamic_patch_load.c and fixed_patch_load.c, the programs that the firmware carries, with
--   their sources in update_server/patch_code: Shipped/Programs (the arrays), Shipped/Sources (the C filters), Shipped/Loader
--   (`load_local_fixed_patch` and `read_local_patch`, with theorems in Shipped/Loading, Alone and Picking);
--   Shipped/Runs runs several instructions, and the theorems about whole programs are in Shipped/TestCve,
--   Coap and Options (by Destopt, Walk and Rounds). They are about the interpreter; the registry's loader
--   compiles the programs of dynamic patches. The fuel of the source's loop is a number of options.
-- - app/ihp_cli.c, the shell: Shell/Text (words and commands, `str2int`), Shell/Line (the buffer and the
--   loop over the characters, with what is put out and called as a list of actions), Shell/Choices (the
--   tables that a number picks from); Shell/Typing, Words, Scanning and Session prove what typed lines do.
-- - libebpf/src/ebpf_allocator.c: Allocator, with the system's allocator as the record `Os`.
-- - hotpatch/src/profiling.c: Profiling; the cycle counter's value is an argument.
--
-- Common holds what they share: Boolean tests, arrays as lists, machine words, signed numbers and the
-- laws of `&` and `|`. Tests evaluates the theorems at concrete inputs.
--
-- Conventions. A w-bit word is a native number with its wrap-around written as a remainder, a pointer
-- is a 32-bit word and NULL is 0. A C array is the list of its allocated cells. What C leaves
-- undefined (a division by zero, a shift by the width, an access outside an array or to an unmapped
-- address) is a value of its own, `Stop.undefined` in the interpreter and `none` in the containers.
-- What a program finds in memory that it has not written is an argument (`Slack`, the initial
-- registers). A helper that an eBPF program calls is any function of its arguments and the memory.
--
-- Bounds and fuel. The interpreter's loop has as fuel two rounds more than MAX_ITERS: the budget check
-- fails at latest in the round where the counter is MAX_ITERS + 1. The searches have as fuel one round
-- more than the number of entries, and each round shortens the range.
--
-- Not modelled: the run of compiled code (`ebpf_run_jit`) and the compiler with allocated buffers, the
-- growing and freeing of `DArray`, the sockets and the Zephyr variant of the patch service, flash
-- access, the test drivers and the sample applications. The `tick` of `ebpf_vm_exec` is the
-- counter of the loop; the value returned when the budget is used up is undefined in C (`1 << 32` on
-- `int`) and is the outcome `iter_limit` here. `le` conversions and addresses are those of a 32-bit
-- little endian machine.
pub mod Common
pub mod Vm
pub mod Jit
pub mod Container
pub mod Point
pub mod Patch
pub mod Dispatch
pub mod Service
pub mod Table
pub mod Shipped
pub mod Shell
pub mod Allocator
pub mod Profiling
mod Tests
