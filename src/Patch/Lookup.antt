-- ===== src/Patch/Lookup.antt =====
-- The lookups of hotpatch/src/iotpatch.c. They return the patch, or NULL.
use rapid_patch_runtime_ae.Common.{
  ℕ, List, [], ◌∷◌, Option, some, Bool, ◌==◌, ◌||◌, if◌then◌else◌, bit_and,
}
use rapid_patch_runtime_ae.Container.ArrayMap.{arraymap_get}
use rapid_patch_runtime_ae.Point.Address.{even}
use rapid_patch_runtime_ae.Patch.Context.{Node, Context, ◌>>=◌, deref}

-- `(bits & addr) == addr`.
abbrev pub passes : ℕ → ℕ → Bool
passes bits addr = bit_and bits addr == addr

abbrev pub active_or_null : Context → ℕ → Option ℕ
active_or_null c p =
    if p == 0
    then some 0
    else (deref c.patches p >>= λ patch. some (if patch.is_active then p else 0))

unfoldable pub get_fixed_patch_by_lr : Context → ℕ → Option ℕ
get_fixed_patch_by_lr c lr =
    if passes c.fbits_filter lr then (arraymap_get c.fixed lr >>= active_or_null c) else some 0

-- The loop over the dynamic patches: the first that matches and is active.
unfoldable pub find_node : Context → (Node → Bool) → List Node → Option ℕ
find_node c matches [] = some 0
find_node c matches (dp ∷ rest) =
    let later = find_node c matches rest in
    if matches dp
    then (deref c.patches dp.patch >>= λ patch. if patch.is_active then some dp.patch else later)
    else later

unfoldable pub get_dynamic_patch_by_pc : Context → ℕ → Option ℕ
unfolding find_node
get_dynamic_patch_by_pc c loc =
    if passes c.dbits_filter_pc loc then find_node c (λ dp. dp.pc_addr == loc) c.nodes else some 0

unfoldable pub get_dynamic_patch_by_bpkt : Context → ℕ → Option ℕ
unfolding find_node
get_dynamic_patch_by_bpkt c loc =
    if passes c.dbits_filter_bpkt loc
    then find_node c (λ dp. dp.inst_addr == loc) c.nodes
    else some 0

unfoldable pub get_dynamic_patch_by_fpb : Context → ℕ → Option ℕ
unfolding find_node
get_dynamic_patch_by_fpb c fpb_addr =
    if passes c.dbits_filter_bpkt fpb_addr || passes c.dbits_filter_bpkt (even fpb_addr)
    then find_node c (λ dp. (dp.inst_addr == fpb_addr) || (dp.inst_addr == even fpb_addr)) c.nodes
    else some 0
