-- ===== src/Patch/FixedNotify.antt =====
-- A new fixed patch in hotpatch/src/iotpatch.c, from the notification to its first lookup.
use mathlib.Core.Path.{subst}
use rapid_patch_runtime_ae.Common.{
  ℕ, ◌<◌, ◌≡◌, ◌≢◌, ◌∙◌, refl, sym, ap, arith, Option, some, true, false, ◌==◌, leb, if◌then◌else◌,
  bit_or, Bool-cases, ==_iff, inl, inr,
}
use rapid_patch_runtime_ae.Common.Bits.{Covers-or_right, Covers-self}
use rapid_patch_runtime_ae.Container.Sorted.{◌!◌}
use rapid_patch_runtime_ae.Container.ArrayMap.{
  ArrayMap, Slack, arraymap_get, arraymap_set, arraymap_iter_val,
}
use rapid_patch_runtime_ae.Container.Lookup.{IsMap, get_cases, get_at}
use rapid_patch_runtime_ae.Container.SetGet.{Settable, arraymap_set-get}
use rapid_patch_runtime_ae.Point.Comparators.{Image}
use rapid_patch_runtime_ae.Patch.Context.{
  PatchType, Desc, Patch, Context, deref, assign, update_bits_filter,
}
use rapid_patch_runtime_ae.Patch.Registry.{
  ebpf_patch_setup, add_fixed_patch_to_ctx, add_ebpf_patch, active_patch, notify_new_patch,
}
use rapid_patch_runtime_ae.Patch.Lookup.{passes, get_fixed_patch_by_lr}
use rapid_patch_runtime_ae.Patch.Filter.{some_inj, update_bits_filter-Filtered}
use rapid_patch_runtime_ae.Patch.Notify.{Exists, IsReadable, update_total, deref-assign}

module _ (sl : Slack) (m : ArrayMap) (h : IsMap m) (key val : ℕ) (ok : Settable sl m key) where
  -- One map answers every key.
  pub set_answers :
      (n : ArrayMap) × (arraymap_set sl m key val ≡ some n)
      × IsMap n
      × ((j : ℕ) → arraymap_get n j ≡ (if j == key then some val else arraymap_get m j))
  set_answers =
      let (n, done, good, self) = arraymap_set-get sl m h key val key ok in
      (
        n,
        done,
        good,
        λ j.
            let (o, again, fine, answer) = arraymap_set-get sl m h key val j ok in
            let same : o ≡ n = some_inj (sym again ∙ done) in
            subst
              (λ (x : ArrayMap).
                arraymap_get x j ≡ (if j == key then some val else arraymap_get m j))
              same answer,
      )

pub iter_val_at : (m : ArrayMap) (i : ℕ) → i < m.cur_size → arraymap_iter_val m i ≡ m.vals ! i
unfolding arraymap_iter_val
iter_val_at m i h = let inside : leb m.cur_size i ≡ false = ground arith in rw inside refl

-- What the map holds after the insertion is the new value, NULL, or was there before.
pub entries-All :
    (c e : Context) (key val : ℕ) (P Q : ℕ → Type 0)
    → IsMap c.fixed
    → IsMap e.fixed
    → ((j : ℕ) → arraymap_get e.fixed j ≡ (if j == key then some val else arraymap_get c.fixed j))
    → ((p : ℕ) → P p → Q p)
    → Q val
    → Q 0
    → ((i : ℕ) → i < c.fixed.cur_size → P (arraymap_iter_val c.fixed i))
    → (i : ℕ) → i < e.fixed.cur_size
    → Q (arraymap_iter_val e.fixed i)
entries-All c e key val P Q good better answers lift new null readable i h =
    let j = e.fixed.keys ! i in
    let got = get_at e.fixed better j i h refl in
    let v : Q (e.fixed.vals ! i) = elim (Bool-cases (j == key)) [
      | inl hit ↦
          let same : val ≡ e.fixed.vals ! i = some_inj (rw hit at (sym (answers j) ∙ got)) in
          subst (λ (p : ℕ). Q p) same new
      | inr miss ↦
          let old : arraymap_get c.fixed j ≡ some (e.fixed.vals ! i) =
            rw miss at (sym (answers j) ∙ got) in
          elim (get_cases c.fixed good j) [
            | inl (k, inside, there, was) ↦
                let same : c.fixed.vals ! k ≡ e.fixed.vals ! i = some_inj (sym was ∙ old) in
                subst (λ (p : ℕ). Q p) same
                  (lift _
                    (subst (λ (p : ℕ). P p) (iter_val_at c.fixed k inside) (readable k inside)))
            | inr (gone, was) ↦ subst (λ (p : ℕ). Q p) (some_inj (sym was ∙ old)) null
          ]
    ] in
    subst (λ (p : ℕ). Q p) (sym (iter_val_at e.fixed i h)) v

pub entries-Exists :
    (c e : Context) (key val : ℕ)
    → IsMap c.fixed
    → IsMap e.fixed
    → ((j : ℕ) → arraymap_get e.fixed j ≡ (if j == key then some val else arraymap_get c.fixed j))
    → ((p : ℕ) → Exists c p → Exists e p)
    → Exists e val
    → IsReadable c
    → IsReadable e
entries-Exists c e key val good better answers lift new readable =
    entries-All c e key val (Exists c) (Exists e) good better answers lift new (inl refl) readable

-- The context after `add_ebpf_patch`.
module _ (vm fresh desc : ℕ) (c : Context) (n : ArrayMap) where
  abbrev made : Patch
  made = record { desc = desc; vm = vm; is_active = false }

  abbrev added : Context
  added = record c { patches = assign c.patches fresh made; fixed = n }

adds_fixed :
    (image : Image) (sl : Slack) (vm fresh desc : ℕ) (c : Context) (d : Desc) (n : ArrayMap)
    → vm ≢ 0
    → fresh ≢ 0
    → desc ≢ 0
    → c.descs desc ≡ some d
    → d.kind ≡ PatchType.fixed_patch_point
    → arraymap_set sl c.fixed d.target fresh ≡ some n
    → add_ebpf_patch image sl vm fresh c desc ≡ some (added vm fresh desc c n, fresh)
unfolding add_ebpf_patch ebpf_patch_setup add_fixed_patch_to_ctx
adds_fixed image sl vm fresh desc c d n v f nd known kind done =
    let n0 : (desc == 0) ≡ false = ground arith in
    let f0 : (fresh == 0) ≡ false = ground arith in
    let v0 : (vm == 0) ≡ false = ground arith in
    let fresh_one : (fresh == fresh) ≡ true = ground arith in
    simp (n0, f0, v0, known, kind, fresh_one, done) refl

-- Adding a patch object keeps what exists.
added-Exists :
    (vm fresh desc : ℕ) (c : Context) (n : ArrayMap) (d : Desc)
    → fresh ≢ 0
    → deref c.descs desc ≡ some d
    → (p : ℕ) → Exists c p
    → Exists (added vm fresh desc c n) p
added-Exists vm fresh desc c n d f known p (inl null) = inl null
added-Exists vm fresh desc c n d f known p (inr (patch, x, there, described)) =
    elim (Bool-cases (p == fresh)) [
      | inl hit ↦ inr (made vm fresh desc c n, d, ground arith, known)
      | inr miss ↦ inr (patch, x, ground arith, described)
    ]

-- `active_patch` on a fixed patch, and the lookup.
pub activates_fixed :
    (image : Image) (e : Context) (p : ℕ) (patch : Patch) (d : Desc)
    → IsReadable e
    → p ≢ 0
    → deref e.patches p ≡ some patch
    → deref e.descs patch.desc ≡ some d
    → d.kind ≡ PatchType.fixed_patch_point
    → arraymap_get e.fixed d.target ≡ some p
    → (g : Context) × (active_patch image e p ≡ some g)
      × (get_fixed_patch_by_lr g d.target ≡ some p)
      × (g.fixed ≡ e.fixed)
      × (deref g.patches p ≡ some (record patch { is_active = true }))
      × ((u : Context) × (update_bits_filter e ≡ some u)
          × (g.fbits_filter ≡ bit_or u.fbits_filter d.target))
unfolding active_patch get_fixed_patch_by_lr
activates_fixed image e p patch d readable n ep ed kind got =
    let (u, upd) = update_total e readable in
    let (filters, entries, nodes, fixed, patches, descs, fpb) =
      update_bits_filter-Filtered e u upd in
    let ep2 : deref u.patches p ≡ some patch =
      ap (λ (h : ℕ → Option Patch). deref h p) patches ∙ ep in
    let ed2 : deref u.descs patch.desc ≡ some d =
      ap (λ (h : ℕ → Option Desc). deref h patch.desc) descs ∙ ed in
    let got2 : arraymap_get u.fixed d.target ≡ some p =
      ap (λ (x : ArrayMap). arraymap_get x d.target) fixed ∙ got in
    let through : passes (bit_or u.fbits_filter d.target) d.target ≡ true =
      (==_iff _ _).1 (Covers-or_right u.fbits_filter d.target d.target (Covers-self d.target)) in
    let p0 : (p == 0) ≡ false = ground arith in
    let p1 : (p == p) ≡ true = ground arith in
    (
      record u {
        fbits_filter = bit_or u.fbits_filter d.target;
        patches = assign u.patches p (record patch { is_active = true });
      },
      simp (upd, ep2, ed2, kind) refl,
      simp (through, got2, p0, p1) refl,
      fixed,
      deref-assign u.patches p (record patch { is_active = true }) n,
      (u, upd, refl),
    )

-- A notification of a new fixed patch, with memory for its objects, every registered fixed patch
-- in memory and a well-formed map that can take its identifier (`Settable`, so the identifier is
-- above the first one): it succeeds, and the lookup of the identifier then returns the new patch.
pub notify_new_patch-get_fixed :
    (image : Image) (sl : Slack) (vm fresh desc : ℕ) (c : Context) (d : Desc)
    → IsReadable c
    → IsMap c.fixed
    → Settable sl c.fixed d.target
    → vm ≢ 0
    → fresh ≢ 0
    → desc ≢ 0
    → c.descs desc ≡ some d
    → d.kind ≡ PatchType.fixed_patch_point
    → (g : Context) × (notify_new_patch image sl vm fresh c desc ≡ some g)
      × (get_fixed_patch_by_lr g d.target ≡ some fresh)
unfolding notify_new_patch
notify_new_patch-get_fixed image sl vm fresh desc c d readable good room v f n known kind =
    let (m, done, better, answers) = set_answers sl c.fixed good d.target fresh room in
    let e = added vm fresh desc c m in
    let described : deref c.descs desc ≡ some d = ground arith in
    let there = deref-assign c.patches fresh (made vm fresh desc c m) f in
    let here : (d.target == d.target) ≡ true = ground arith in
    let entries =
      entries-Exists c e d.target fresh good better answers
        (added-Exists vm fresh desc c m d f described)
        (inr (made vm fresh desc c m, d, there, described)) readable in
    let (g, active, found, entry, object, filter) =
      activates_fixed image e fresh (made vm fresh desc c m) d entries f there described kind
        (rw here at (answers d.target)) in
    (g, rw (adds_fixed image sl vm fresh desc c d m v f n known kind done) active, found)
