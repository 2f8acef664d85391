-- ===== src/Vm/Lifecycle.antt =====
-- The creation and destruction of machines in libebpf/src/ebpf_vm.c, which share one counted table
-- of helper functions. A pointer is a number and NULL is 0; `none` is an access to a freed table.
use rapid_patch_runtime_ae.Common.{
  ℕ, zero, suc, ◌+◌, ◌-◌, ◌/◌, ◌≡◌, ◌<◌, ◌≤◌, refl, arith, List, Option, none, some, Bool, true,
  false, ◌==◌, leb, if◌then◌else◌, u16, replicate, set, Bool-cases, inl, inr, get_elem?, length,
  length-set, get_elem?-set_self,
}
use rapid_patch_runtime_ae.Common.Int.{ℤ, pos, negsuc}

abbrev pub max_ext_funcs : ℕ
max_ext_funcs = 12

-- `ebpf_helper_env` behind `g_helper_func`.
pub record HelperEnv : Type 0 where
  pub funcs : List ℕ
  pub refcnt : ℕ

-- The fields of an `ebpf_vm` that these functions set; `attached` tells whether `helper_func` is
-- set, which then is `g_helper_func`; a table that is made after the shared one was freed is not
-- told from it.
pub record Machine : Type 0 where
  pub code : ℕ
  pub num_insts : ℕ
  pub attached : Bool

-- `g_helper_func`.
abbrev pub Shared : Type 0
Shared = Option HelperEnv

unfoldable pub use_default_helper_func : Shared → HelperEnv
use_default_helper_func none = record { funcs = replicate max_ext_funcs 0; refcnt = 1 }
use_default_helper_func (some env) = record env { refcnt = env.refcnt + 1 }

-- `(u16) code_len / sizeof(vm->insts[0])`: the length is cut to 16 bits before the division.
abbrev pub count_insts : ℕ → ℕ
count_insts code_len = u16 code_len / 8

-- `ebpf_register` with what it returns.
unfoldable pub ebpf_register : Shared → Machine → ℕ → ℕ → Option ((HelperEnv × Machine) × ℤ)
unfolding use_default_helper_func
ebpf_register g vm idx fn =
    let registered : HelperEnv → Machine → (HelperEnv × Machine) × ℤ = λ env m.
      if leb max_ext_funcs idx
      then ((env, m), negsuc 0)
      else ((record env { funcs = set env.funcs idx fn }, m), pos 0) in
    if vm.attached
    then elim g [ none ↦ none | some env ↦ some (registered env vm) ]
    else some (registered (use_default_helper_func g) (record vm { attached = true }))

-- `set_default_helpers` is `defaults`: it changes the table of the machine.
module _ (defaults : List ℕ → List ℕ) where
  -- `init_iot_ebpf_helpers`.
  unfoldable pub init_iot_ebpf_helpers : Shared → HelperEnv
  unfolding use_default_helper_func
  init_iot_ebpf_helpers g =
      let env = use_default_helper_func g in record env { funcs = defaults env.funcs }

  -- `init_ebpf_vm` and `ebpf_vm_set_inst`, where there is memory.
  unfoldable pub init_ebpf_vm : Shared → ℕ → ℕ → Shared × Machine
  unfolding init_iot_ebpf_helpers
  init_ebpf_vm g code code_len = (
    some (init_iot_ebpf_helpers g),
    record { code = code; num_insts = count_insts code_len; attached = true },
  )

  unfoldable pub ebpf_vm_set_inst : Shared → Machine → ℕ → ℕ → Shared × Machine
  unfolding init_ebpf_vm
  ebpf_vm_set_inst g vm code code_len = init_ebpf_vm g code code_len

-- `ebpf_create`.
abbrev pub ebpf_create : Machine
ebpf_create = record { code = 0; num_insts = 0; attached = false }

-- `ebpf_vm_load`: `copy` is the memory for the instructions, or NULL.
unfoldable pub ebpf_vm_load : Machine → ℕ → ℕ → Machine × ℤ
ebpf_vm_load vm copy code_len =
    if vm.code == 0
    then (if copy == 0
        then (vm, negsuc 0)
        else (record vm { code = copy; num_insts = count_insts code_len }, pos 0))
    else (vm, negsuc 0)

-- `ebpf_vm_destroy`, as far as the shared table goes.
unfoldable pub ebpf_vm_destroy : Shared → Shared
ebpf_vm_destroy none = none
ebpf_vm_destroy (some env) =
    if env.refcnt == 1 then none else some (record env { refcnt = env.refcnt - 1 })

-- `n` machines are made, or destroyed, one after the other.
abbrev pub made : (List ℕ → List ℕ) → ℕ → Shared → Shared
made defaults zero g = g
made defaults (suc n) g = made defaults n (init_ebpf_vm defaults g 0 0).0

abbrev pub destroyed : ℕ → Shared → Shared
destroyed zero g = g
destroyed (suc n) g = destroyed n (ebpf_vm_destroy g)

-- The table is counted by `n` machines.
abbrev pub CountsTo : ℕ → Shared → Type 0
CountsTo n none = n ≡ 0
CountsTo n (some env) = (env.refcnt ≡ n) × (0 < n)

made-CountsTo :
    (defaults : List ℕ → List ℕ) (n m : ℕ) (g : Shared)
    → CountsTo m g
    → CountsTo (n + m) (made defaults n g)
unfolding init_ebpf_vm init_iot_ebpf_helpers use_default_helper_func
made-CountsTo defaults zero m none h = omega arith
made-CountsTo defaults zero m (some env) h = (omega (arith, h.0), omega (arith, h.1))
made-CountsTo defaults (suc n) m none h =
    let moved : suc n + m ≡ n + suc m = omega arith in
    rw moved (made-CountsTo defaults n (suc m) _ (omega arith, omega arith))
made-CountsTo defaults (suc n) m (some env) h =
    let moved : suc n + m ≡ n + suc m = omega arith in
    rw moved (made-CountsTo defaults n (suc m) _ (omega (arith, h.0), omega arith))

destroy-CountsTo : (n : ℕ) (g : Shared) → CountsTo (suc n) g → CountsTo n (ebpf_vm_destroy g)
unfolding ebpf_vm_destroy
destroy-CountsTo n none h = absurd (omega arith)
destroy-CountsTo n (some env) (count, up) = elim (Bool-cases (env.refcnt == 1)) [
  | inl last ↦ rw last (ground arith)
  | inr more ↦ rw more (ground arith, ground arith)
]

destroyed-CountsTo : (n k : ℕ) (g : Shared) → CountsTo (n + k) g → CountsTo k (destroyed n g)
destroyed-CountsTo zero k none h = omega arith
destroyed-CountsTo zero k (some env) h = (omega (arith, h.0), omega (arith, h.1))
destroyed-CountsTo (suc n) k g h =
    let moved : suc n + k ≡ suc (n + k) = omega arith in
    destroyed-CountsTo n k (ebpf_vm_destroy g) (destroy-CountsTo (n + k) g (rw moved at h))

-- The shared table of helpers, counted by the machines that `init_ebpf_vm` makes: when `n + k` have
-- been made from nothing and `n` destroyed, it exists if and only if `k` is not zero, and then its
-- count is `k`.
destroyed-made :
    (defaults : List ℕ → List ℕ) (n k : ℕ) → CountsTo k (destroyed n (made defaults (n + k) none))
destroyed-made defaults n k =
    let start = made-CountsTo defaults (n + k) 0 none refl in
    let no_more : n + k + 0 ≡ n + k = omega arith in
    destroyed-CountsTo n k (made defaults (n + k) none) (rw no_more at start)

-- A registered helper is in the table at its index, and the call that the interpreter makes finds
-- it there; an index of twelve or more is refused and changes no function.
pub ebpf_register-get :
    (env : HelperEnv) (vm : Machine) (idx fn : ℕ)
    → vm.attached ≡ true
    → length env.funcs ≡ max_ext_funcs
    → (e : HelperEnv) × (r : ℤ) × (ebpf_register (some env) vm idx fn ≡ some ((e, vm), r))
      × (idx < max_ext_funcs → (r ≡ pos 0) × (get_elem? e.funcs idx ≡ some fn))
      × (max_ext_funcs ≤ idx → (r ≡ negsuc 0) × (e.funcs ≡ env.funcs))
      × (length e.funcs ≡ max_ext_funcs)
unfolding ebpf_register
ebpf_register-get env vm idx fn on size = elim (Bool-cases (leb max_ext_funcs idx)) [
  | inl over ↦
      (env, negsuc 0, simp (on, over) refl, λ h. absurd (ground arith), λ h. (refl, refl), size)
  | inr within ↦ (
    record env { funcs = set env.funcs idx fn },
    pos 0,
    simp (on, within) refl,
    λ h. (refl, get_elem?-set_self env.funcs idx fn (omega arith)),
    λ h. absurd (ground arith),
    omega (arith, length-set env.funcs idx fn),
  )
]

-- Destroying a machine that `ebpf_create` made, and that does not count, frees the table of the one
-- machine that uses it: the next registration there is an access to a freed object.
destroy_created-register :
    (defaults : List ℕ → List ℕ) (code len idx fn : ℕ)
    → let used = init_ebpf_vm defaults none code len in
      ebpf_register (ebpf_vm_destroy used.0) used.1 idx fn ≡ none
unfolding ebpf_register ebpf_vm_destroy init_ebpf_vm init_iot_ebpf_helpers use_default_helper_func
destroy_created-register defaults code len idx fn = refl
