-- ===== src/Patch/Context.antt =====
-- The state of hotpatch/src/iotpatch.c: `patch_context`, and the objects on the heap that it points
-- to, by their address. NULL is 0; `none` is an access through NULL or to an object that does not
-- exist.
use rapid_patch_runtime_ae.Common.{
  ℕ, zero, suc, ◌+◌, List, [], ◌∷◌, Option, none, some, Bool, ◌==◌, if◌then◌else◌, bit_or,
}
use rapid_patch_runtime_ae.Container.ArrayMap.{ArrayMap, arraymap_iter_val, arraymap_new}
use rapid_patch_runtime_ae.Point.Comparators.{Fpb}

pub data PatchType : Type 0 where
  fixed_patch_point dynamic_patch_point other_type : PatchType

-- The fields of a `patch_desc` that the registry uses. `target` is the union of `fixed_id` and
-- `inst_addr`.
pub record Desc : Type 0 where
  pub kind : PatchType
  pub target : ℕ

pub record Patch : Type 0 where
  pub desc : ℕ
  pub vm : ℕ
  pub is_active : Bool

pub record Node : Type 0 where
  pub patch : ℕ
  pub inst_addr : ℕ
  pub pc_addr : ℕ

abbrev pub Heap {ℓ} : Type ℓ → Type ℓ
Heap A = ℕ → Option A

-- `nodes` is the list behind `dpatch_list.next`; `fixed` is `fpatch_list.fiexed_patches`; `fpb` is
-- the breakpoint unit.
pub record Context : Type 0 where
  pub ctx_init : Bool
  pub fbits_filter : ℕ
  pub fixed : ArrayMap
  pub dbits_filter_bpkt : ℕ
  pub dbits_filter_pc : ℕ
  pub nodes : List Node
  pub patches : Heap Patch
  pub descs : Heap Desc
  pub fpb : Fpb

infixl 5 ◌>>=◌
abbrev pub ◌>>=◌ {ℓ κ} : {A : Type ℓ} {B : Type κ} → Option A → (A → Option B) → Option B
none >>= f = none
some a >>= f = f a

abbrev pub deref {ℓ} : {A : Type ℓ} → Heap A → ℕ → Option A
deref heap p = if p == 0 then none else heap p

abbrev pub assign {ℓ} : {A : Type ℓ} → Heap A → ℕ → A → Heap A
assign heap p a = λ q. if q == p then some a else heap q

-- What an entry of the fixed patches adds to their filter.
unfoldable pub fixed_bits : Context → ℕ → Option ℕ
fixed_bits c p =
    if p == 0
    then some 0
    else (deref c.patches p >>= λ patch.
        if patch.is_active then (deref c.descs patch.desc >>= λ desc. some desc.target) else some 0)

-- The first loop of `update_bits_filter`, with `count` rounds left.
unfoldable pub or_fixed : Context → ℕ → ℕ → ℕ → Option ℕ
unfolding fixed_bits
or_fixed c zero i bits = some bits
or_fixed c (suc count) i bits = fixed_bits c (arraymap_iter_val c.fixed i) >>= λ more.
    or_fixed c count (i + 1) (bit_or bits more)

unfoldable pub or_pc : List Node → ℕ → ℕ
or_pc [] bits = bits
or_pc (dp ∷ rest) bits = or_pc rest (bit_or bits dp.pc_addr)

unfoldable pub or_bpkt : List Node → ℕ → ℕ
or_bpkt [] bits = bits
or_bpkt (dp ∷ rest) bits = or_bpkt rest (bit_or bits dp.inst_addr)

unfoldable pub update_bits_filter : Context → Option Context
unfolding or_fixed or_pc or_bpkt
update_bits_filter c = do
  bits ← or_fixed c c.fixed.cur_size 0 0
  some (record c {
    fbits_filter = bits;
    dbits_filter_pc = or_pc c.nodes 0;
    dbits_filter_bpkt = or_bpkt c.nodes 0;
  })

-- `init_patch_sys`; the two lists are the memory of the new map's arrays.
unfoldable pub init_patch_sys : List ℕ → List ℕ → Context → Option Context
unfolding update_bits_filter
init_patch_sys fresh_keys fresh_vals c = if c.ctx_init then some c else (do
  d ← update_bits_filter (record c { fixed = arraymap_new 4 fresh_keys fresh_vals; nodes = [] })
  some (record d { ctx_init = Bool.true }))
