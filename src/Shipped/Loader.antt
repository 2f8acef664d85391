-- ===== src/Shipped/Loader.antt =====
-- `read_local_patch` of hotpatch/src/dynamic_patch_load.c and `load_local_fixed_patch` of
-- hotpatch/src/fixed_patch_load.c: one of the firmware's own programs enters the registry. Each file
-- has one description and one patch object for all its programs.
use rapid_patch_runtime_ae.Common.{
  ℕ, List, Option, none, some, Bool, true, false, ◌==◌, if◌then◌else◌, length, get_elem?,
}
use rapid_patch_runtime_ae.Common.Int.{pos, negsuc, signed32, lt_z}
use rapid_patch_runtime_ae.Container.ArrayMap.{Slack}
use rapid_patch_runtime_ae.Point.Comparators.{Image}
use rapid_patch_runtime_ae.Vm.Inst.{Inst}
use rapid_patch_runtime_ae.Jit.Emit.Registers.{Code}
use rapid_patch_runtime_ae.Jit.Encode.Memory.{RegPair}
use rapid_patch_runtime_ae.Jit.Cases.{Program}
use rapid_patch_runtime_ae.Jit.Entry.{gen_jit_code}
use rapid_patch_runtime_ae.Shipped.Programs.{inst_of}
use rapid_patch_runtime_ae.Patch.Context.{
  PatchType, Desc, Patch, Heap, Context, ◌>>=◌, deref, assign, init_patch_sys,
}
use rapid_patch_runtime_ae.Patch.Registry.{load_local_patch_to_ctx}

-- `struct local_patch` without its name; the code is written in words of eight bytes.
pub record LocalPatch : Type 0 where
  pub loc : ℕ
  pub code : List ℕ

-- The fields of an `ebpf_vm` that the loaders set; `jit` is the code behind `jit_func`.
pub record LocalVm : Type 0 where
  pub code : List ℕ
  pub use_jit : Bool
  pub jit : Option Code

-- `is_init`, `_desc`, `_patch`, the registry and the machines.
pub record Loader : Type 0 where
  pub is_init : Bool
  pub desc : ℕ
  pub patch : ℕ
  pub context : Context
  pub vms : Heap LocalVm

-- What malloc and calloc return, if they are called: addresses, and the arrays of a new map.
pub record Fresh : Type 0 where
  pub desc : ℕ
  pub patch : ℕ
  pub vm : ℕ
  pub keys : List ℕ
  pub vals : List ℕ

-- What the compiler finds around a program: the memory behind it, the helpers and the registers'
-- table.
pub record Surroundings : Type 0 where
  pub past : ℕ → Inst
  pub helpers : ℕ → ℕ
  pub beyond : RegPair

abbrev pub program_of : Surroundings → List ℕ → Program
program_of around code = record {
  insts = λ i. elim (get_elem? code i) [ none ↦ around.past i | some word ↦ inst_of word ];
  inst_num = length code;
  helpers = around.helpers;
  beyond = around.beyond;
}

-- `patch_list[pid]` where only `pid > n` is refused: `some none` if it is, `none` off the list.
unfoldable pub pick_local : List LocalPatch → ℕ → Option (Option LocalPatch)
pick_local list pid =
    if lt_z (pos (length list)) (signed32 pid)
    then some none
    else elim (signed32 pid) [ pos i ↦ get_elem? list i >>= λ pt. some (some pt) | negsuc i ↦ none ]

-- The objects from calloc, the first time.
unfoldable pub init_objects : Fresh → Loader → Loader
init_objects fresh s =
    let empty : Patch = record { desc = 0; vm = 0; is_active = false } in
    let blank : Desc = record { kind = PatchType.other_type; target = 0 } in
    if s.is_init then s else record s {
      is_init = true;
      desc = fresh.desc;
      patch = fresh.patch;
      context = record s.context {
        patches = assign s.context.patches fresh.patch empty;
        descs = assign s.context.descs fresh.desc blank;
      };
    }

-- The description is filled in; a NULL is not written through.
unfoldable pub describe : PatchType → ℕ → Loader → Option Loader
describe kind loc s = deref s.context.descs s.desc >>= λ d. some (record s {
  context = record s.context {
    descs = assign s.context.descs s.desc (record { kind = kind; target = loc });
  };
})

-- The patch takes the description and a machine, a new one if it has none, which `ebpf_vm_set_inst`
-- clears and gives the program.
unfoldable pub attach_vm : Fresh → LocalVm → Loader → Option Loader
attach_vm fresh machine s = deref s.context.patches s.patch >>= λ patch.
    let vm = if patch.vm == 0 then fresh.vm else patch.vm in
    let attached : Patch = record patch { desc = s.desc; vm = vm } in
    if vm == 0
    then none
    else some (record s {
      context = record s.context { patches = assign s.context.patches s.patch attached };
      vms = assign s.vms vm machine;
    })

module _ (image : Image) (sl : Slack) (fresh : Fresh) where
  abbrev pub enter : Loader → Option Loader
  enter s =
      load_local_patch_to_ctx image sl s.context s.patch >>= λ c. some (record s { context = c })

  abbrev pub init_context : Loader → Option Loader
  init_context s =
      init_patch_sys fresh.keys fresh.vals s.context >>= λ c. some (record s { context = c })

  -- One program of the fixed patches: it is interpreted.
  unfoldable pub load_fixed : Loader → LocalPatch → Option Loader
  unfolding init_objects describe attach_vm
  load_fixed s pt = do
    t ← init_context (init_objects fresh s)
    u ← describe PatchType.fixed_patch_point pt.loc t
    v ← attach_vm fresh (record { code = pt.code; use_jit = false; jit = none }) u
    enter v

  unfoldable pub load_local_fixed_patch : List LocalPatch → Loader → ℕ → Option Loader
  unfolding pick_local load_fixed
  load_local_fixed_patch patch_list s pid = pick_local patch_list pid >>= λ choice. elim choice [
    | none ↦ some s
    | some pt ↦ load_fixed s pt
  ]

  -- One program of the dynamic patches: it is compiled. `init_patch_sys` is called the first time
  -- only.
  unfoldable pub load_dynamic : Surroundings → Loader → LocalPatch → Option Loader
  unfolding init_objects describe attach_vm
  load_dynamic around s pt = do
    t ← (if s.is_init then some s else init_context (init_objects fresh s))
    u ← describe PatchType.dynamic_patch_point pt.loc t
    compiled ← gen_jit_code (program_of around pt.code)
    v ← attach_vm fresh (record { code = pt.code; use_jit = true; jit = some compiled }) u
    enter v

  unfoldable pub read_local_patch : Surroundings → List LocalPatch → Loader → ℕ → Option Loader
  unfolding pick_local load_dynamic
  read_local_patch around patch_list s pid = pick_local patch_list pid >>= λ choice. elim choice [
    | none ↦ some s
    | some pt ↦ load_dynamic around s pt
  ]
