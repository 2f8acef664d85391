-- ===== src/Patch/Notify.antt =====
-- A new dynamic patch in hotpatch/src/iotpatch.c, from the notification to its first lookup.
use mathlib.Core.Path.{subst}
use rapid_patch_runtime_ae.Common.{
  ℕ, zero, suc, ◌+◌, ◌≤◌, ◌<◌, ◌^◌, ◌≡◌, ◌≢◌, ◌∙◌, refl, sym, ap, arith, Option, some, true, false,
  ◌==◌, bit_or, Bool-cases, Option-cases, ◌⊎◌, inl, inr,
}
use rapid_patch_runtime_ae.Container.ArrayMap.{Slack, arraymap_iter_val}
use rapid_patch_runtime_ae.Point.Address.{
  word_aligned, calc_bpkt_addr-even, even_as_quotient, word_aligned_as_quotient,
}
use rapid_patch_runtime_ae.Point.Comparators.{Image, Fpb}
use rapid_patch_runtime_ae.Point.Bounds.{IsFpb, Armed, add_hw_bkpt_placed}
use rapid_patch_runtime_ae.Patch.Context.{
  PatchType, Desc, Patch, Context, deref, assign, fixed_bits, or_fixed, update_bits_filter,
}
use rapid_patch_runtime_ae.Patch.Registry.{
  ebpf_patch_setup, place_node, node_of, add_dynamic_patch_to_ctx, add_ebpf_patch, active_patch,
  notify_new_patch,
}
use rapid_patch_runtime_ae.Patch.Lookup.{get_dynamic_patch_by_bpkt}
use rapid_patch_runtime_ae.Patch.Placing.{found_placed}
use rapid_patch_runtime_ae.Patch.Filter.{
  FiltersNodes, update_bits_filter-Filtered, get_dynamic_patch_through,
}

-- Every fixed patch, and its description, exists.
abbrev pub Exists : Context → ℕ → Type 0
Exists c p =
    (p ≡ 0)
    ⊎ ((patch : Patch) × (desc : Desc) × (deref c.patches p ≡ some patch)
        × (deref c.descs patch.desc ≡ some desc))

abbrev pub IsReadable : Context → Type 0
IsReadable c = (i : ℕ) → i < c.fixed.cur_size → Exists c (arraymap_iter_val c.fixed i)

fixed_bits_total : (c : Context) (p : ℕ) → Exists c p → (b : ℕ) × (fixed_bits c p ≡ some b)
unfolding fixed_bits
fixed_bits_total c p (inl null) =
    let z : (p == 0) ≡ true = ground arith in (0, rw (z, fixed_bits) refl)
fixed_bits_total c p (inr (patch, desc, e, d)) = elim (Bool-cases (p == 0)) [
  | inl z ↦ (0, rw (z, fixed_bits) refl)
  | inr z ↦ elim (Bool-cases patch.is_active) [
    | inl on ↦ (desc.target, rw (z, fixed_bits) (simp (rw z at e, on, d) refl))
    | inr off ↦ (0, rw (z, fixed_bits) (simp (rw z at e, off) refl))
  ]
]

or_fixed_total :
    (c : Context) (count i bits : ℕ)
    → ((k : ℕ) → i ≤ k → k < i + count → Exists c (arraymap_iter_val c.fixed k))
    → (r : ℕ) × (or_fixed c count i bits ≡ some r)
unfolding or_fixed
or_fixed_total c zero i bits h = (bits, refl)
or_fixed_total c (suc count) i bits h =
    let (b, e) =
      fixed_bits_total c (arraymap_iter_val c.fixed i) (h i (omega arith) (omega arith)) in
    let (r, rest) =
      or_fixed_total c count (i + 1) (bit_or bits b)
        (λ k low high. h k (omega arith) (omega arith)) in
    (r, rw (e, or_fixed) rest)

pub update_total : (c : Context) → IsReadable c → (d : Context) × (update_bits_filter c ≡ some d)
unfolding update_bits_filter
update_total c h =
    let (r, e) = or_fixed_total c c.fixed.cur_size 0 0 (λ k low high. h k (omega arith)) in
    elim (Option-cases (update_bits_filter c)) [
      | inr updated ↦ updated
      | inl gone ↦ absurd (let x = rw (e, update_bits_filter) at gone in cc)
    ]

pub deref-assign :
    {A : Type 0} (heap : ℕ → Option A) (p : ℕ) (x : A) → p ≢ 0 → deref (assign heap p x) p ≡ some x
deref-assign heap p x n = ground arith

-- What `active_patch` does for a dynamic patch.
abbrev pub Activated : Context → ℕ → Patch → Desc → Context → Type 0
Activated c p patch desc g =
    (g.nodes ≡ c.nodes)
    × FiltersNodes g
    × (deref g.patches p ≡ some (record patch { is_active = true }))
    × ((i : ℕ) × Armed g.fpb i desc.target)
    × IsFpb g.fpb

active_patch-Activated :
    (image : Image) (c : Context) (p : ℕ) (patch : Patch) (desc : Desc)
    → IsReadable c
    → p ≢ 0
    → deref c.patches p ≡ some patch
    → deref c.descs patch.desc ≡ some desc
    → desc.kind ≡ PatchType.dynamic_patch_point
    → desc.target < 2 ^ 29
    → IsFpb c.fpb
    → c.fpb.active ≡ false
    → (g : Context) × (active_patch image c p ≡ some g) × Activated c p patch desc g
unfolding active_patch
active_patch-Activated image c p patch desc readable n ep ed kind low unit monitor =
    let (u, e) = update_total c readable in
    let (filters, entries, nodes, fixed, patches, descs, fpb) = update_bits_filter-Filtered c u e in
    let (v, i, bp, armed, ok, act) =
      add_hw_bkpt_placed image u.fpb desc.target (subst (λ (x : Fpb). IsFpb x) (sym fpb) unit)
        (ap (λ (x : Fpb). x.active) fpb ∙ monitor) low in
    let ep2 : deref u.patches p ≡ some patch =
      ap (λ (h : ℕ → Option Patch). deref h p) patches ∙ ep in
    let ed2 : deref u.descs patch.desc ≡ some desc =
      ap (λ (h : ℕ → Option Desc). deref h patch.desc) descs ∙ ed in
    (
      record u { fpb = v; patches = assign u.patches p (record patch { is_active = true }) },
      simp (e, ep2, ed2, kind, bp) refl,
      (
        nodes,
        record { bpkt_passes = filters.bpkt_passes; pc_passes = filters.pc_passes },
        deref-assign u.patches p _ n,
        (i, armed),
        ok,
      ),
    )

pub still-Exists :
    (c e : Context) (fresh desc : ℕ) (made : Patch) (old new : Desc)
    → e.patches ≡ assign c.patches fresh made
    → e.descs ≡ assign c.descs desc new
    → made.desc ≡ desc
    → fresh ≢ 0
    → desc ≢ 0
    → (p : ℕ) → Exists c p
    → Exists e p
still-Exists c e fresh desc made old new ep ed own f n p (inl null) = inl null
still-Exists c e fresh desc made old new ep ed own f n p (inr (patch, d, there, known)) =
    let stays : (q : ℕ) (x : Desc)
        → deref c.descs q ≡ some x
        → (y : Desc) × (deref e.descs q ≡ some y) =
      λ q x k. elim (Bool-cases (q == desc)) [
        | inl hit ↦ (new, rw ed (ground arith))
        | inr miss ↦ (x, rw ed (ground arith))
      ] in
    elim (Bool-cases (p == fresh)) [
      | inl hit ↦ inr (made, new, rw ep (ground arith), rw (ed, own) (ground arith))
      | inr miss ↦ let (y, k) = stays patch.desc d known in inr (patch, y, rw ep (ground arith), k)
    ]

adds :
    (image : Image) (sl : Slack) (vm fresh desc : ℕ) (c : Context) (d : Desc)
    → vm ≢ 0
    → fresh ≢ 0
    → desc ≢ 0
    → c.descs desc ≡ some d
    → d.kind ≡ PatchType.dynamic_patch_point
    → add_ebpf_patch image sl vm fresh c desc
      ≡ some (
        record c {
          patches = assign c.patches fresh (record { desc = desc; vm = vm; is_active = false });
          descs = assign c.descs desc (record d { target = word_aligned d.target });
          nodes =
              place_node
                (word_aligned d.target)
                (node_of image fresh (word_aligned d.target))
                c.nodes;
        },
        fresh,
      )
unfolding add_ebpf_patch ebpf_patch_setup add_dynamic_patch_to_ctx
adds image sl vm fresh desc c d v f n known kind =
    let made : Patch = record { desc = desc; vm = vm; is_active = false } in
    let aligned : Desc = record d { target = word_aligned d.target } in
    let n0 : (desc == 0) ≡ false = ground arith in
    let f0 : (fresh == 0) ≡ false = ground arith in
    let v0 : (vm == 0) ≡ false = ground arith in
    let fresh_one : (fresh == fresh) ≡ true = ground arith in
    let desc_one : (desc == desc) ≡ true = ground arith in
    simp (n0, f0, v0, known, kind, fresh_one, desc_one) refl

-- A notification of a new dynamic patch in debug monitor mode, for an instruction in the code
-- region below 0x20000000, with memory for its objects, well-formed breakpoint registers and every
-- registered fixed patch in memory: it succeeds, a breakpoint stands at the instruction's word
-- address, and the lookup at that address then returns the new patch, whatever dynamic patches
-- were registered before.
pub notify_new_patch-get :
    (image : Image) (sl : Slack) (vm fresh desc : ℕ) (c : Context) (d : Desc)
    → IsReadable c
    → IsFpb c.fpb
    → c.fpb.active ≡ false
    → vm ≢ 0
    → fresh ≢ 0
    → desc ≢ 0
    → c.descs desc ≡ some d
    → d.kind ≡ PatchType.dynamic_patch_point
    → d.target < 2 ^ 29
    → (g : Context) × (notify_new_patch image sl vm fresh c desc ≡ some g)
      × (get_dynamic_patch_by_bpkt g (word_aligned d.target) ≡ some fresh)
      × ((i : ℕ) × Armed g.fpb i (word_aligned d.target))
unfolding notify_new_patch
notify_new_patch-get image sl vm fresh desc c d readable unit monitor v f n known kind low =
    let a = word_aligned d.target in
    let quotient = word_aligned_as_quotient d.target (omega arith) in
    let made : Patch = record { desc = desc; vm = vm; is_active = false } in
    let aligned = record d { target = a } in
    let new = node_of image fresh a in
    let e : Context = record c {
      patches = assign c.patches fresh made;
      descs = assign c.descs desc aligned;
      nodes = place_node a new c.nodes;
    } in
    let read_back : new.inst_addr ≡ a =
      calc_bpkt_addr-even a (omega (arith, quotient))
      ∙ ground (arith, quotient, even_as_quotient a) in
    let (g, active, (nodes, filters, on, armed, ok)) =
      active_patch-Activated image e fresh made aligned
        (λ i h. still-Exists c e fresh desc made d aligned refl refl refl f n _ (readable i h)) f
        (deref-assign c.patches fresh made f) (deref-assign c.descs desc aligned n) kind
        (omega (arith, quotient)) unit monitor in
    let found = found_placed g new a read_back _ on refl c.nodes in
    (
      g,
      rw (adds image sl vm fresh desc c d v f n known kind) active,
      (get_dynamic_patch_through g a filters).0 ∙ rw nodes found,
      armed,
    )
