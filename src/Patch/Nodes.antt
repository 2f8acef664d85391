-- ===== src/Patch/Nodes.antt =====
-- What `add_dynamic_patch_to_ctx` of hotpatch/src/iotpatch.c does to the list of dynamic patches.
use rapid_patch_runtime_ae.Common.{
  ℕ, suc, ◌+◌, ◌≤◌, ◌≡◌, ◌≢◌, refl, arith, List, [], ◌∷◌, ◌++◌, some, false, ◌==◌, ltb, get_elem?,
  length, Bool-cases, Option-cases, ==_iff, inl, inr,
}
use rapid_patch_runtime_ae.Patch.Context.{Node}
use rapid_patch_runtime_ae.Patch.Registry.{
  max_dp_num, replace_found, append_node, replace_last, place_node,
}

replace_found-length :
    (a : ℕ) (new : Node) (nodes : List Node) {placed : List Node}
    → replace_found a new nodes ≡ some placed
    → length placed ≤ length nodes
unfolding replace_found
replace_found-length a new [] e = absurd (cc)
replace_found-length a new (dp ∷ rest) {placed} e = elim (Bool-cases (dp.inst_addr == a)) [
  | inl hit ↦
      let same : placed ≡ new ∷ [] = (let x = rw (hit, replace_found) at e in cc) in
      rw same (omega arith)
  | inr miss ↦ elim (Option-cases (replace_found a new rest)) [
    | inl gone ↦ absurd (let x = rw (miss, gone, replace_found) at e in cc)
    | inr (later, more) ↦
        let same : placed ≡ dp ∷ later = (let x = rw (miss, more, replace_found) at e in cc) in
        rw same (omega (arith, replace_found-length a new rest more))
  ]
]

append_node-length :
    (new : Node) (nodes : List Node) → length (append_node new nodes) ≡ length nodes + 1
unfolding append_node
append_node-length new [] = refl
append_node-length new (dp ∷ rest) = omega (arith, append_node-length new rest)

replace_last-length :
    (new : Node) (nodes : List Node) → length (replace_last new nodes) ≡ length nodes
unfolding replace_last
replace_last-length new [] = refl
replace_last-length new (dp ∷ []) = refl
replace_last-length new (dp ∷ (next ∷ rest)) = omega (arith, replace_last-length new (next ∷ rest))

-- The list never has more than MAX_DP_NUM + 1 entries, one more than the maximum that its name
-- states.
pub place_node-length :
    (a : ℕ) (new : Node) (nodes : List Node)
    → length nodes ≤ max_dp_num + 1
    → length (place_node a new nodes) ≤ max_dp_num + 1
unfolding place_node
place_node-length a new nodes h = elim (Option-cases (replace_found a new nodes)) [
  | inr (placed, e) ↦ rw (e, place_node) (omega (arith, replace_found-length a new nodes e))
  | inl e ↦
      rw (e, place_node)
        (elim (Bool-cases (ltb max_dp_num (length nodes))) [
          | inl full ↦ rw full (omega (arith, replace_last-length new nodes))
          | inr room ↦ rw room (ground (arith, append_node-length new nodes))
        ])
]

replace_found_cut :
    (a : ℕ) (new dp : Node) (before behind : List Node)
    → ((i : ℕ) (d : Node) → get_elem? before i ≡ some d → d.inst_addr ≢ a)
    → dp.inst_addr ≡ a
    → replace_found a new (before ++ (dp ∷ behind)) ≡ some (before ++ (new ∷ []))
unfolding replace_found
replace_found_cut a new dp [] behind others here =
    let hit = (==_iff dp.inst_addr a).1 here in rw hit refl
replace_found_cut a new dp (d ∷ before) behind others here =
    let differs = others 0 d refl in
    let miss : (d.inst_addr == a) ≡ false = ground arith in
    rw (miss, replace_found_cut a new dp before behind (λ i. others (suc i)) here) refl

-- Registering a patch at an address that the list has already replaces that entry and drops all
-- that stand behind it.
place_node_cut :
    (a : ℕ) (new dp : Node) (before behind : List Node)
    → ((i : ℕ) (d : Node) → get_elem? before i ≡ some d → d.inst_addr ≢ a)
    → dp.inst_addr ≡ a
    → place_node a new (before ++ (dp ∷ behind)) ≡ before ++ (new ∷ [])
unfolding place_node
place_node_cut a new dp before behind others here =
    rw (replace_found_cut a new dp before behind others here, place_node) refl
