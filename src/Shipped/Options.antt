-- ===== src/Shipped/Options.antt =====
-- The program `amnesia33_cve_2020_17445` against its source.
use mathlib.Core.Path.{subst}
use rapid_patch_runtime_ae.Common.{
  ℕ, ◌+◌, ◌*◌, ◌%◌, ◌^◌, ◌≤◌, ◌<◌, ◌≡◌, refl, sym, ap, ◌∙◌, arith, List, u64, u32, some, none,
  length,
}
use rapid_patch_runtime_ae.Vm.Memory.{Memory, load}
use rapid_patch_runtime_ae.Vm.State.{Frame, returned, ended, iter_limit}
use rapid_patch_runtime_ae.Vm.Run.{entry, ebpf_vm_exec}
use rapid_patch_runtime_ae.Shipped.Runs.{
  steps, steps-add, Ends, Ends-steps, ebpf_vm_exec-Ends, ebpf_vm_exec-limit, twelve_registers,
}
use rapid_patch_runtime_ae.Shipped.Programs.{amnesia33_cve_2020_17445, machine_of}
use rapid_patch_runtime_ae.Shipped.Sources.{filter_destopt, intercept}
use rapid_patch_runtime_ae.Shipped.Destopt.{at, begin}
use rapid_patch_runtime_ae.Shipped.Walk.{
  IsBytes, load-byte, filter_destopt-some, filter_destopt-none,
}
use rapid_patch_runtime_ae.Shipped.Rounds.{walk_options-Ends, walk_options-steps}

-- Run by the interpreter on a frame whose words for `r0` and `r2` are `header` and `ptr`, in a
-- memory of bytes and with any registers before, the program `amnesia33_cve_2020_17445` returns what
-- the filter of its source returns, whenever the source's loop ends within 1364 options: the
-- interpreter's budget of instructions is enough for as many.
pub amnesia33_cve_2020_17445-filter :
    (f : Frame) (regs : List ℕ) (m : Memory) (header ptr n result : ℕ)
    → length regs ≡ 12
    → f.mem + 16 < 2 ^ 32
    → header < 2 ^ 32
    → ptr < 2 ^ 32
    → IsBytes m
    → load m f.mem 4 ≡ some header
    → load m (f.mem + 8) 4 ≡ some ptr
    → filter_destopt m n header ptr ≡ some (some result)
    → n ≤ 1365
    → ebpf_vm_exec (machine_of amnesia33_cve_2020_17445) f regs m ≡ ended (returned result)
unfolding filter_destopt entry
amnesia33_cve_2020_17445-filter f regs m header ptr n result count room h32 p32 bytes read_header
      read_ptr ran few =
    let (r0, r1, r2, r3, r4, r5, r6, r7, r8, r9, r10, r11, e) = twelve_registers regs count in
    let top = u64 (f.stack + 128) in
    let r1_set : u64 f.mem ≡ f.mem = omega arith in
    let (d, ret, read, walked, same) = filter_destopt-some m n header ptr result ran in
    let small : d < 256 = load-byte m (u32 (header + 1)) d bytes read in
    let first =
      begin f m r8 r9 top r11 r0 f.mem r2 r3 r4 r5 r6 r7 header ptr d room h32 p32 small read_header
        read_ptr read in
    let len : ((d + 1) * 8 + 254) % 256 ≡ (d * 8 + 6) % 256 = omega arith in
    let loop =
      walk_options-Ends f m bytes r8 r9 top r11 n r0 (d * 8 + 6) (header + 2) (ptr + 2) r4 r5 r6 r7
        ret (omega arith) (omega arith) (omega arith) (omega arith) (rw len at walked) in
    let vm = machine_of amnesia33_cve_2020_17445 in
    let start = at f m r8 r9 top r11 0 r0 f.mem r2 r3 r4 r5 r6 r7 in
    let entered : entry f regs m ≡ start = rw (e, r1_set) refl in
    let ends =
      subst (λ s. Ends vm f (7 + 24 * n) s (intercept ret)) (sym entered)
        (Ends-steps vm f 7 (24 * n) _ _ _ first loop) in
    ebpf_vm_exec-Ends vm f (7 + 24 * n) regs m (intercept ret) ends (omega arith)
    ∙ ap (λ r. ended (returned r)) same

-- Run as before on a packet for which the source's loop does not end within 1366 options, the
-- program does not return: the interpreter gives up when its budget of instructions is used up.
pub amnesia33_cve_2020_17445-limit :
    (f : Frame) (regs : List ℕ) (m : Memory) (header ptr : ℕ)
    → length regs ≡ 12
    → f.mem + 16 < 2 ^ 32
    → header < 2 ^ 32
    → ptr < 2 ^ 32
    → IsBytes m
    → load m f.mem 4 ≡ some header
    → load m (f.mem + 8) 4 ≡ some ptr
    → filter_destopt m 1366 header ptr ≡ some none
    → ebpf_vm_exec (machine_of amnesia33_cve_2020_17445) f regs m ≡ iter_limit
unfolding entry
amnesia33_cve_2020_17445-limit f regs m header ptr count room h32 p32 bytes read_header read_ptr
      ran =
    let (r0, r1, r2, r3, r4, r5, r6, r7, r8, r9, r10, r11, e) = twelve_registers regs count in
    let top = u64 (f.stack + 128) in
    let r1_set : u64 f.mem ≡ f.mem = omega arith in
    let (d, read, walked) = filter_destopt-none m 1366 header ptr ran in
    let small : d < 256 = load-byte m (u32 (header + 1)) d bytes read in
    let first =
      begin f m r8 r9 top r11 r0 f.mem r2 r3 r4 r5 r6 r7 header ptr d room h32 p32 small read_header
        read_ptr read in
    let len : ((d + 1) * 8 + 254) % 256 ≡ (d * 8 + 6) % 256 = omega arith in
    let vm = machine_of amnesia33_cve_2020_17445 in
    let (t, loop) =
      walk_options-steps f m bytes r8 r9 top r11 1366 r0 (d * 8 + 6) (header + 2) (ptr + 2) r4 r5 r6
        r7 (omega arith) (omega arith) (omega arith) (omega arith) (rw len at walked) in
    let start = at f m r8 r9 top r11 0 r0 f.mem r2 r3 r4 r5 r6 r7 in
    let entered : entry f regs m ≡ start = rw (e, r1_set) refl in
    ebpf_vm_exec-limit vm f (7 + 24 * 1366) regs m t
      (ap (λ s. steps vm f (7 + 24 * 1366) s) entered
        ∙ steps-add vm f 7 (24 * 1366) _ _ _ first loop)
      (omega arith)
