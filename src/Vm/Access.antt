-- ===== src/Vm/Access.antt =====
-- The loads and stores of the interpreter: the round trip through memory, and what the bounds
-- checks of ebpf_vm.c do and do not guard.
use rapid_patch_runtime_ae.Common.{
  ℕ, ◌+◌, ◌*◌, ◌%◌, ◌^◌, ◌≤◌, ◌<◌, ◌≡◌, arith, some, true, get_elem?, set, u32, u64,
}
use rapid_patch_runtime_ae.Vm.Inst.{Inst, Size}
use rapid_patch_runtime_ae.Vm.State.{Vm, Frame, State, ok}
use rapid_patch_runtime_ae.Vm.Memory.{Memory, load, store, load-store, store_of_load}
use rapid_patch_runtime_ae.Vm.Step.{exec_load, exec_store, bounds_check, bytes, displace}

-- With the checks on and no wrap in the address arithmetic, an access that begins at the end of
-- the buffer, wholly outside of it, passes as long as its fourfold size is at most three times the
-- buffer's length.
pub bounds_check_past_end :
    (vm : Vm) (f : Frame) (size : ℕ)
    → vm.bounds_check_enabled ≡ true
    → 0 < f.mem
    → 4 * size ≤ 3 * f.mem_len
    → f.mem + 4 * f.mem_len < 2 ^ 32
    → bounds_check vm f (f.mem + f.mem_len) size ≡ true
unfolding bounds_check
bounds_check_past_end vm f size on some_mem small fits = ground arith

-- The bounds check of a store is made on the source register alone: if it passes there, the store
-- writes wherever the destination register points, and the bytes can be read back from there.
exec_store_unguarded :
    (vm : Vm) (f : Frame) (size : Size) (i : Inst) (v : ℕ) (s : State) (tested base old : ℕ)
    → get_elem? s.regs i.src ≡ some tested
    → get_elem? s.regs i.dst ≡ some base
    → bounds_check vm f (displace tested i) (bytes size) ≡ true
    → load s.memory (u32 (displace base i)) (bytes size) ≡ some old
    → (m : Memory) × (exec_store vm f size i v s ≡ ok (record s { memory = m }))
      × (load m (u32 (displace base i)) (bytes size) ≡ some (v % 256 ^ bytes size))
unfolding exec_store
exec_store_unguarded vm f size i v s tested base old es ed passes mapped =
    let (m, done) = store_of_load s.memory (u32 (displace base i)) (bytes size) v mapped in
    (m, rw (es, passes, ed, done), load-store s.memory (u32 (displace base i)) (bytes size) v done)

exec_load_value :
    (vm : Vm) (f : Frame) (size : Size) (i : Inst) (s : State) {base x old : ℕ}
    → get_elem? s.regs i.src ≡ some base
    → bounds_check vm f (displace base i) (bytes size) ≡ true
    → load s.memory (u32 (displace base i)) (bytes size) ≡ some x
    → get_elem? s.regs i.dst ≡ some old
    → exec_load vm f size i s ≡ ok (record s { regs = set s.regs i.dst (u64 x) })
unfolding exec_load
exec_load_value vm f Size.w i s es passes loaded ed = rw (es, loaded, ed)
exec_load_value vm f _ i s es passes loaded ed = rw (es, passes, loaded, ed)

exec_store-ok :
    (vm : Vm) (f : Frame) (size : Size) (i : Inst) (v : ℕ) (s : State) {t : State} {base : ℕ}
    → exec_store vm f size i v s ≡ ok t
    → get_elem? s.regs i.dst ≡ some base
    → (m : Memory) × (t ≡ record s { memory = m })
      × (store s.memory (u32 (displace base i)) (bytes size) v ≡ some m)
unfolding exec_store
exec_store-ok vm f size i v s {t} e ed = ground arith

-- A store that goes on, followed by a load of the same size through the same pointer register and
-- offset, brings the stored value back, cut to the size, into any register, if the load's check
-- passes.
pub exec_load-exec_store :
    (vm : Vm) (f : Frame) (size : Size) (i j : Inst) (v : ℕ) (s : State) {t : State} (base old : ℕ)
    → exec_store vm f size i v s ≡ ok t
    → get_elem? s.regs i.dst ≡ some base
    → j.src ≡ i.dst
    → j.offset ≡ i.offset
    → get_elem? s.regs j.dst ≡ some old
    → bounds_check vm f (displace base i) (bytes size) ≡ true
    → exec_load vm f size j t
      ≡ ok (record t { regs = set s.regs j.dst (u64 (v % 256 ^ bytes size)) })
exec_load-exec_store vm f size i j v s {t} base old e eb es eo ed passes =
    let (m, same, stored) = exec_store-ok vm f size i v s e eb in
    let after : State = record s { memory = m } in
    let loaded = load-store s.memory (u32 (displace base i)) (bytes size) v stored in
    rw same (
      exec_load_value vm f size j after {base = base} {x = v % 256 ^ bytes size} {old = old}
        (rw es eb) (rw eo passes) (rw eo loaded) ed)
