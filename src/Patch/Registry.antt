-- ===== src/Patch/Registry.antt =====
-- hotpatch/src/iotpatch.c: how patches enter the context.
use rapid_patch_runtime_ae.Common.{
  ℕ, List, [], ◌∷◌, Option, none, some, true, false, ◌==◌, ltb, if◌then◌else◌, bit_or, length,
}
use rapid_patch_runtime_ae.Container.ArrayMap.{Slack, arraymap_set}
use rapid_patch_runtime_ae.Point.Address.{calc_bpkt_addr, calc_bpkt_pc, word_aligned}
use rapid_patch_runtime_ae.Point.Comparators.{Image, add_hw_bkpt}
use rapid_patch_runtime_ae.Patch.Context.{
  PatchType, Patch, Node, Context, ◌>>=◌, deref, assign, update_bits_filter,
}

abbrev pub max_dp_num : ℕ
max_dp_num = 6

-- `ebpf_patch_setup`: `vm` is what `init_ebpf_vm` returns and `fresh` the address of the new object.
unfoldable pub ebpf_patch_setup : ℕ → ℕ → Context → ℕ → Option (Context × ℕ)
ebpf_patch_setup vm fresh c desc =
    let made : Patch = record { desc = desc; vm = vm; is_active = false } in
    deref c.descs desc >>= λ d.
    if vm == 0
    then some (c, 0)
    else some (record c { patches = assign c.patches fresh made }, fresh)

-- The node of `add_dynamic_patch_to_ctx` in its place: instead of the first with the same address
-- and everything behind it, since `cur->next = NULL`.
unfoldable pub replace_found : ℕ → Node → List Node → Option (List Node)
replace_found addr new [] = none
replace_found addr new (dp ∷ rest) =
    let behind = replace_found addr new rest in
    if dp.inst_addr == addr then some (new ∷ []) else (behind >>= λ later. some (dp ∷ later))

unfoldable pub append_node : Node → List Node → List Node
append_node new [] = new ∷ []
append_node new (dp ∷ rest) = dp ∷ append_node new rest

unfoldable pub replace_last : Node → List Node → List Node
replace_last new [] = []
replace_last new (dp ∷ []) = new ∷ []
replace_last new (dp ∷ (next ∷ rest)) = dp ∷ replace_last new (next ∷ rest)

unfoldable pub place_node : ℕ → Node → List Node → List Node
unfolding replace_found append_node replace_last
place_node addr new nodes = elim (replace_found addr new nodes) [
  | some placed ↦ placed
  | none ↦ if ltb max_dp_num (length nodes) then replace_last new nodes else append_node new nodes
]

module _ (image : Image) where
  abbrev pub node_of : ℕ → ℕ → Node
  node_of p addr = record {
    patch = p;
    inst_addr = calc_bpkt_addr addr;
    pc_addr = calc_bpkt_pc image.half (calc_bpkt_addr addr);
  }

  unfoldable pub add_dynamic_patch_to_ctx : Context → ℕ → Option Context
  unfolding place_node
  add_dynamic_patch_to_ctx c p = do
    patch ← deref c.patches p
    desc ← deref c.descs patch.desc
    some (record c { nodes = place_node desc.target (node_of p desc.target) c.nodes })

  unfoldable pub add_fixed_patch_to_ctx : Slack → Context → ℕ → Option Context
  add_fixed_patch_to_ctx sl c p = do
    patch ← deref c.patches p
    desc ← deref c.descs patch.desc
    m ← arraymap_set sl c.fixed desc.target p
    some (record c { fixed = m })

  -- `add_ebpf_patch` and the patch that it returns; `desc->inst_addr &= ~0x3` changes the object.
  unfoldable pub add_ebpf_patch : Slack → ℕ → ℕ → Context → ℕ → Option (Context × ℕ)
  unfolding ebpf_patch_setup add_dynamic_patch_to_ctx add_fixed_patch_to_ctx
  add_ebpf_patch sl vm fresh c desc = do
    made ← ebpf_patch_setup vm fresh c desc
    d ← deref made.0.descs desc
    elim d.kind [
      | PatchType.fixed_patch_point ↦
          add_fixed_patch_to_ctx sl made.0 made.1 >>= λ e. some (e, made.1)
      | PatchType.dynamic_patch_point ↦
          let aligned = record d { target = word_aligned d.target } in
          let e = record made.0 { descs = assign made.0.descs desc aligned } in
          add_dynamic_patch_to_ctx e made.1 >>= λ f. some (f, made.1)
      | PatchType.other_type ↦ some made
    ]

  unfoldable pub active_patch : Context → ℕ → Option Context
  active_patch c p = do
    e ← update_bits_filter c
    patch ← deref e.patches p
    desc ← deref e.descs patch.desc
    f ← elim desc.kind [
      | PatchType.fixed_patch_point ↦
          some (record e { fbits_filter = bit_or e.fbits_filter desc.target })
      | PatchType.dynamic_patch_point ↦
          add_hw_bkpt image e.fpb desc.target >>= λ r. some (record e { fpb = r.0 })
      | PatchType.other_type ↦ some e
    ]
    some (record f { patches = assign f.patches p (record patch { is_active = true }) })

  unfoldable pub notify_new_patch : Slack → ℕ → ℕ → Context → ℕ → Option Context
  unfolding add_ebpf_patch active_patch
  notify_new_patch sl vm fresh c desc = do
    added ← add_ebpf_patch sl vm fresh c desc
    active_patch added.0 added.1

  -- The loop of `load_local_patch_to_ctx` with its update: `none` if no node has the patch.
  unfoldable pub update_node : ℕ → ℕ → List Node → Option (List Node)
  update_node p addr [] = none
  update_node p addr (dp ∷ rest) =
      let behind = update_node p addr rest in
      if dp.patch == p
      then some (node_of p addr ∷ rest)
      else (behind >>= λ later. some (dp ∷ later))

  unfoldable pub load_local_patch_to_ctx : Slack → Context → ℕ → Option Context
  unfolding update_node add_dynamic_patch_to_ctx add_fixed_patch_to_ctx active_patch
  load_local_patch_to_ctx sl c p = do
    patch ← deref c.patches p
    desc ← deref c.descs patch.desc
    elim desc.kind [
      | PatchType.fixed_patch_point ↦ add_fixed_patch_to_ctx sl c p >>= λ d. active_patch d p
      | PatchType.dynamic_patch_point ↦ elim (update_node p desc.target c.nodes) [
        | none ↦ add_dynamic_patch_to_ctx c p >>= λ d. active_patch d p
        | some nodes ↦ active_patch (record c { nodes = nodes }) p
      ]
      | PatchType.other_type ↦ some c
    ]
