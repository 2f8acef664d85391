-- ===== src/Patch/Placing.antt =====
-- hotpatch/src/iotpatch.c: a lookup among the dynamic patches after a node has been placed there.
use rapid_patch_runtime_ae.Common.{
  ℕ, ◌≡◌, ◌∙◌, refl, List, [], ◌∷◌, none, some, Bool, true, false, ◌==◌, ltb, if◌then◌else◌,
  Bool-cases, Option-cases, ==_iff, inl, inr, length,
}
use rapid_patch_runtime_ae.Patch.Context.{Patch, Node, Context, deref}
use rapid_patch_runtime_ae.Patch.Registry.{
  max_dp_num, replace_found, append_node, replace_last, place_node,
}
use rapid_patch_runtime_ae.Patch.Lookup.{find_node}

-- The new node is in use, and at the address `a`.
module _ (c : Context) (new : Node) (a : ℕ) (here : new.inst_addr ≡ a) (patch : Patch)
    (there : deref c.patches new.patch ≡ some patch) (on : patch.is_active ≡ true) where
  abbrev pub at_a : Node → Bool
  at_a dp = dp.inst_addr == a

  found_new : (rest : List Node) → find_node c at_a (new ∷ rest) ≡ some new.patch
  unfolding find_node
  found_new rest = let hit = (==_iff new.inst_addr a).1 here in rw (hit, there, on) refl

  skipped :
      (dp : Node) (rest : List Node)
      → (dp.inst_addr == a) ≡ false
      → find_node c at_a (dp ∷ rest) ≡ find_node c at_a rest
  unfolding find_node
  skipped dp rest miss = rw miss refl

  found_replaced :
      (nodes : List Node) {placed : List Node}
      → replace_found a new nodes ≡ some placed
      → find_node c at_a placed ≡ some new.patch
  unfolding replace_found
  found_replaced [] e = absurd (cc)
  found_replaced (dp ∷ rest) {placed} e = elim (Bool-cases (dp.inst_addr == a)) [
    | inl hit ↦
        let same : placed ≡ new ∷ [] = (let x = rw (hit, replace_found) at e in cc) in
        rw same (found_new [])
    | inr miss ↦ elim (Option-cases (replace_found a new rest)) [
      | inl gone ↦ absurd (let x = rw (miss, gone, replace_found) at e in cc)
      | inr (later, more) ↦
          let same : placed ≡ dp ∷ later = (let x = rw (miss, more, replace_found) at e in cc) in
          rw same (skipped dp later miss ∙ found_replaced rest more)
    ]
  ]

  none_found-rest :
      (dp : Node) (rest : List Node)
      → replace_found a new (dp ∷ rest) ≡ none
      → ((dp.inst_addr == a) ≡ false) × (replace_found a new rest ≡ none)
  unfolding replace_found
  none_found-rest dp rest e = elim (Bool-cases (dp.inst_addr == a)) [
    | inl hit ↦ absurd (let x = rw (hit, replace_found) at e in cc)
    | inr miss ↦ elim (Option-cases (replace_found a new rest)) [
      | inl gone ↦ (miss, gone)
      | inr (later, more) ↦ absurd (let x = rw (miss, more, replace_found) at e in cc)
    ]
  ]

  found_appended :
      (nodes : List Node)
      → replace_found a new nodes ≡ none
      → find_node c at_a (append_node new nodes) ≡ some new.patch
  unfolding append_node
  found_appended [] e = found_new []
  found_appended (dp ∷ rest) e =
      let (miss, gone) = none_found-rest dp rest e in
      skipped dp (append_node new rest) miss ∙ found_appended rest gone

  found_last :
      (dp : Node) (nodes : List Node)
      → replace_found a new (dp ∷ nodes) ≡ none
      → find_node c at_a (replace_last new (dp ∷ nodes)) ≡ some new.patch
  unfolding replace_last
  found_last dp [] e = found_new []
  found_last dp (next ∷ rest) e =
      let (miss, gone) = none_found-rest dp (next ∷ rest) e in
      skipped dp (replace_last new (next ∷ rest)) miss ∙ found_last next rest gone

  -- Wherever `add_dynamic_patch_to_ctx` puts it, the search comes to it first.
  -- A lookup at the address finds the node that has been placed there.
  pub found_placed :
      (nodes : List Node) → find_node c at_a (place_node a new nodes) ≡ some new.patch
  unfolding place_node
  found_placed nodes = elim (Option-cases (replace_found a new nodes)) [
    | inr (placed, e) ↦ rw (e, place_node) (found_replaced nodes e)
    | inl e ↦ rw (e, place_node) (found_elsewhere nodes e)
  ]
    where
      found_elsewhere :
          (ns : List Node)
          → replace_found a new ns ≡ none
          → find_node c at_a
              (if ltb max_dp_num (length ns) then replace_last new ns else append_node new ns)
            ≡ some new.patch
      found_elsewhere [] e = found_appended [] e
      found_elsewhere (dp ∷ rest) e = elim (Bool-cases (ltb max_dp_num (length (dp ∷ rest)))) [
        | inl full ↦ rw full (found_last dp rest e)
        | inr room ↦ rw room (found_appended (dp ∷ rest) e)
      ]
