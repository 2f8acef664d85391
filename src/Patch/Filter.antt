-- ===== src/Patch/Filter.antt =====
-- The bit filters of hotpatch/src/iotpatch.c: they reject only what the full search would not find.
use mathlib.Core.Option.{some-injective}
use mathlib.Core.Path.{subst}
use rapid_patch_runtime_ae.Common.{
  ℕ, zero, suc, ◌+◌, ◌≤◌, ◌<◌, ◌≡◌, ◌∙◌, refl, sym, ap, arith, List, [], ◌∷◌, some, Bool, true,
  false, ◌==◌, ◌||◌, bit_or, get_elem?, Bool-cases, Option-cases, ==_iff, inl, inr,
}
use rapid_patch_runtime_ae.Common.Bits.{Covers, Covers-self, Covers-or_left, Covers-or_right}
use rapid_patch_runtime_ae.Container.ArrayMap.{arraymap_iter_val}
use rapid_patch_runtime_ae.Point.Address.{even}
use rapid_patch_runtime_ae.Patch.Context.{
  Node, Context, fixed_bits, or_fixed, or_pc, or_bpkt, update_bits_filter,
}
use rapid_patch_runtime_ae.Patch.Lookup.{
  passes, find_node, get_dynamic_patch_by_pc, get_dynamic_patch_by_bpkt, get_dynamic_patch_by_fpb,
}

pub some_inj : {A : Type 0} {a b : A} → some a ≡ some b → a ≡ b
some_inj e = some-injective _ _ e

or_bpkt-Covers : (nodes : List Node) (bits x : ℕ) → Covers bits x → Covers (or_bpkt nodes bits) x
unfolding or_bpkt
or_bpkt-Covers [] bits x c = c
or_bpkt-Covers (dp ∷ rest) bits x c =
    or_bpkt-Covers rest (bit_or bits dp.inst_addr) x (Covers-or_left bits dp.inst_addr x c)

or_bpkt_node :
    (nodes : List Node) (bits i : ℕ) (dp : Node)
    → get_elem? nodes i ≡ some dp
    → Covers (or_bpkt nodes bits) dp.inst_addr
unfolding or_bpkt
or_bpkt_node [] bits i dp e = absurd (cc)
or_bpkt_node (d ∷ rest) bits zero dp e =
    let same : d ≡ dp = some_inj e in
    or_bpkt-Covers rest (bit_or bits d.inst_addr) dp.inst_addr (
      Covers-or_right bits d.inst_addr dp.inst_addr
        (rw (ap (λ (n : Node). n.inst_addr) same) (Covers-self dp.inst_addr)))
or_bpkt_node (d ∷ rest) bits (suc i) dp e = or_bpkt_node rest (bit_or bits d.inst_addr) i dp e

or_pc-Covers : (nodes : List Node) (bits x : ℕ) → Covers bits x → Covers (or_pc nodes bits) x
unfolding or_pc
or_pc-Covers [] bits x c = c
or_pc-Covers (dp ∷ rest) bits x c =
    or_pc-Covers rest (bit_or bits dp.pc_addr) x (Covers-or_left bits dp.pc_addr x c)

or_pc_node :
    (nodes : List Node) (bits i : ℕ) (dp : Node)
    → get_elem? nodes i ≡ some dp
    → Covers (or_pc nodes bits) dp.pc_addr
unfolding or_pc
or_pc_node [] bits i dp e = absurd (cc)
or_pc_node (d ∷ rest) bits zero dp e =
    let same : d ≡ dp = some_inj e in
    or_pc-Covers rest (bit_or bits d.pc_addr) dp.pc_addr (
      Covers-or_right bits d.pc_addr dp.pc_addr
        (rw (ap (λ (n : Node). n.pc_addr) same) (Covers-self dp.pc_addr)))
or_pc_node (d ∷ rest) bits (suc i) dp e = or_pc_node rest (bit_or bits d.pc_addr) i dp e

-- The filters let the addresses of every dynamic patch pass.
pub record FiltersNodes (c : Context) : Type 0 where
  pub bpkt_passes :
      (i : ℕ) (dp : Node) → get_elem? c.nodes i ≡ some dp → Covers c.dbits_filter_bpkt dp.inst_addr
  pub pc_passes :
      (i : ℕ) (dp : Node) → get_elem? c.nodes i ≡ some dp → Covers c.dbits_filter_pc dp.pc_addr

-- And the identifier of every active fixed patch.
abbrev pub FiltersFixed : Context → Type 0
FiltersFixed c =
    (i b : ℕ)
    → i < c.fixed.cur_size
    → fixed_bits c (arraymap_iter_val c.fixed i) ≡ some b
    → Covers c.fbits_filter b

or_fixed-Covers :
    (c : Context) (count i bits : ℕ) {r : ℕ} (x : ℕ)
    → or_fixed c count i bits ≡ some r
    → Covers bits x
    → Covers r x
unfolding or_fixed
or_fixed-Covers c zero i bits x e v = subst (λ (b : ℕ). Covers b x) (some_inj e) v
or_fixed-Covers c (suc count) i bits x e v =
    elim (Option-cases (fixed_bits c (arraymap_iter_val c.fixed i))) [
      | inl gone ↦ absurd (let h = rw (gone, or_fixed) at e in cc)
      | inr (more, here) ↦
          or_fixed-Covers c count (i + 1) (bit_or bits more) x (rw (here, or_fixed) at e)
            (Covers-or_left bits more x v)
    ]

or_fixed_entry :
    (c : Context) (count i bits : ℕ) {r : ℕ} (k b : ℕ)
    → or_fixed c count i bits ≡ some r
    → i ≤ k
    → k < i + count
    → fixed_bits c (arraymap_iter_val c.fixed k) ≡ some b
    → Covers r b
unfolding or_fixed
or_fixed_entry c zero i bits k b e low high h = absurd (omega arith)
or_fixed_entry c (suc count) i bits k b e low high h =
    elim (Option-cases (fixed_bits c (arraymap_iter_val c.fixed i))) [
      | inl gone ↦ absurd (let x = rw (gone, or_fixed) at e in cc)
      | inr (more, here) ↦
          let later = rw (here, or_fixed) at e in
          elim (Bool-cases (k == i)) [
            | inl at_i ↦
                let same : k ≡ i = (==_iff k i).0 at_i in
                let equal : more ≡ b = some_inj (sym here ∙ (rw same at h)) in
                or_fixed-Covers c count (i + 1) (bit_or bits more) b later
                  (Covers-or_right bits more b (rw equal (Covers-self b)))
            | inr beyond ↦
                or_fixed_entry c count (i + 1) (bit_or bits more) k b later (ground arith)
                  (omega arith) h
          ]
    ]

-- `d` is `c` but for the filters, which have no false negatives.
abbrev pub Filtered : Context → Context → Type 0
Filtered c d =
    FiltersNodes d
    × FiltersFixed d
    × (d.nodes ≡ c.nodes)
    × (d.fixed ≡ c.fixed)
    × (d.patches ≡ c.patches)
    × (d.descs ≡ c.descs)
    × (d.fpb ≡ c.fpb)

-- `update_bits_filter` changes the filters alone. Afterwards they let pass the two addresses of
-- every dynamic patch and the identifier of every fixed patch that is active.
pub update_bits_filter-Filtered : (c d : Context) → update_bits_filter c ≡ some d → Filtered c d
unfolding update_bits_filter fixed_bits
update_bits_filter-Filtered c d e = elim (Option-cases (or_fixed c c.fixed.cur_size 0 0)) [
  | inl gone ↦ absurd (let x = rw (gone, update_bits_filter) at e in cc)
  | inr (bits, here) ↦
      let same = some_inj (rw (here, update_bits_filter) at e) in
      subst (λ (x : Context). Filtered c x) same
        (
          record { bpkt_passes = or_bpkt_node c.nodes 0; pc_passes = or_pc_node c.nodes 0 },
          λ i b h. or_fixed_entry c c.fixed.cur_size 0 0 i b here (omega arith) (omega arith),
          refl,
          refl,
          refl,
          refl,
          refl,
        )
]

find_node_none :
    (c : Context) (matches : Node → Bool) (nodes : List Node)
    → ((i : ℕ) (dp : Node) → get_elem? nodes i ≡ some dp → matches dp ≡ false)
    → find_node c matches nodes ≡ some 0
unfolding find_node
find_node_none c matches [] h = refl
find_node_none c matches (dp ∷ rest) h =
    let skip = h 0 dp refl in rw skip (find_node_none c matches rest (λ i. h (suc i)))

-- An address that the mask does not let pass is not one that it covers.
not_covered : (bits x a : ℕ) → passes bits a ≡ false → Covers bits x → (x == a) ≡ false
not_covered bits x a stopped covered = elim (Bool-cases (x == a)) [
  | inr differs ↦ differs
  | inl equals ↦
      let same : x ≡ a = (==_iff x a).0 equals in
      let through : passes bits a ≡ true = (==_iff _ a).1 (rw same at covered) in absurd (cc)
]

pub get_dynamic_patch_through :
    (c : Context) (a : ℕ)
    → FiltersNodes c
    → (get_dynamic_patch_by_bpkt c a ≡ find_node c (λ dp. dp.inst_addr == a) c.nodes)
      × (get_dynamic_patch_by_pc c a ≡ find_node c (λ dp. dp.pc_addr == a) c.nodes)
      × (get_dynamic_patch_by_fpb c a
          ≡ find_node c (λ dp. (dp.inst_addr == a) || (dp.inst_addr == even a)) c.nodes)
unfolding get_dynamic_patch_by_bpkt get_dynamic_patch_by_pc get_dynamic_patch_by_fpb
get_dynamic_patch_through c a f = (
  elim (Bool-cases (passes c.dbits_filter_bpkt a)) [
    | inl through ↦ rw (through, get_dynamic_patch_by_bpkt) refl
    | inr stopped ↦
        rw (stopped, get_dynamic_patch_by_bpkt)
          (sym (
            find_node_none c _ c.nodes (λ i dp e.
              not_covered c.dbits_filter_bpkt dp.inst_addr a stopped (f.bpkt_passes i dp e))))
  ],
  elim (Bool-cases (passes c.dbits_filter_pc a)) [
    | inl through ↦ rw (through, get_dynamic_patch_by_pc) refl
    | inr stopped ↦
        rw (stopped, get_dynamic_patch_by_pc)
          (sym (
            find_node_none c _ c.nodes
              (λ i dp e. not_covered c.dbits_filter_pc dp.pc_addr a stopped (f.pc_passes i dp e))))
  ],
  elim (Bool-cases (passes c.dbits_filter_bpkt a)) [
    | inl through ↦ rw (through, get_dynamic_patch_by_fpb) refl
    | inr stopped ↦ elim (Bool-cases (passes c.dbits_filter_bpkt (even a))) [
      | inl through ↦ rw (stopped, through, get_dynamic_patch_by_fpb) refl
      | inr both ↦
          rw (stopped, both, get_dynamic_patch_by_fpb)
            (sym (
              find_node_none c _ c.nodes (λ i dp e.
                let no =
                  not_covered c.dbits_filter_bpkt dp.inst_addr a stopped (f.bpkt_passes i dp e) in
                let nor =
                  not_covered c.dbits_filter_bpkt dp.inst_addr (even a) both
                    (f.bpkt_passes i dp e) in
                rw (no, nor) refl)))
    ]
  ],
)

-- The filters are an optimisation: in the context that `update_bits_filter` leaves, whatever it was
-- before, each lookup of a dynamic patch gives for any address what the search of the whole list
-- gives.
pub get_dynamic_patch_unfiltered :
    (before c : Context) (a : ℕ)
    → update_bits_filter before ≡ some c
    → (get_dynamic_patch_by_bpkt c a ≡ find_node c (λ dp. dp.inst_addr == a) c.nodes)
      × (get_dynamic_patch_by_pc c a ≡ find_node c (λ dp. dp.pc_addr == a) c.nodes)
      × (get_dynamic_patch_by_fpb c a
          ≡ find_node c (λ dp. (dp.inst_addr == a) || (dp.inst_addr == even a)) c.nodes)
get_dynamic_patch_unfiltered before c a updated =
    get_dynamic_patch_through c a (update_bits_filter-Filtered before c updated).0
