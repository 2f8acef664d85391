-- ===== src/Shipped/Alone.antt =====
-- The registry of a device whose only patches are those of hotpatch/src/fixed_patch_load.c: what
-- every location finds after a program has been loaded.
use rapid_patch_runtime_ae.Common.{
  ℕ, zero, suc, ◌+◌, ◌≡◌, ◌≢◌, ◌≤◌, ◌<◌, ◌∙◌, ◌⊎◌, refl, sym, ap, arith, some, true, false, ◌==◌,
  if◌then◌else◌, inl, inr, Bool-cases, Option-cases, bit_or,
}
use rapid_patch_runtime_ae.Common.Bits.{halving, bit_or_step, bit_or_comm}
use rapid_patch_runtime_ae.Container.ArrayMap.{arraymap_iter_val, arraymap_get}
use rapid_patch_runtime_ae.Container.Sorted.{◌!◌}
use rapid_patch_runtime_ae.Container.Lookup.{IsMap, get_cases}
use rapid_patch_runtime_ae.Patch.Lookup.{passes, active_or_null, get_fixed_patch_by_lr}
use rapid_patch_runtime_ae.Patch.FixedNotify.{iter_val_at}
use rapid_patch_runtime_ae.Patch.Context.{
  Desc, Patch, Context, deref, fixed_bits, or_fixed, update_bits_filter,
}
use rapid_patch_runtime_ae.Patch.Filter.{some_inj}

bit_or_self : (x : ℕ) → bit_or x x ≡ x
bit_or_self =
    halving (λ x. bit_or x x ≡ x) refl λ x positive half. bit_or_step x x ∙ ground (arith, half)

bit_or_zero : (x : ℕ) → bit_or 0 x ≡ x
bit_or_zero =
    halving (λ x. bit_or 0 x ≡ x) refl λ x positive half. bit_or_step 0 x ∙ ground (arith, half)

-- NULL or the one patch object.
abbrev pub IsOwn : ℕ → ℕ → Type 0
IsOwn p q = (q ≡ 0) ⊎ (q ≡ p)

module _ (e : Context) (p : ℕ) (patch : Patch) (d : Desc) (there : deref e.patches p ≡ some patch)
    (described : deref e.descs patch.desc ≡ some d) where
  own_bits : (q : ℕ) → IsOwn p q → (b : ℕ) × (fixed_bits e q ≡ some b) × ((b ≡ 0) ⊎ (b ≡ d.target))
  unfolding fixed_bits
  own_bits q (inl null) = (0, rw null refl, inl refl)
  own_bits q (inr same) = elim (Bool-cases (p == 0)) [
    | inl z ↦ (0, rw (same, z) refl, inl refl)
    | inr z ↦ elim (Bool-cases patch.is_active) [
      | inl on ↦ (d.target, rw (same, z, rw z at there, on, described) refl, inr refl)
      | inr off ↦ (0, rw (same, z, rw z at there, off) refl, inl refl)
    ]
  ]

  or_own :
      (a b : ℕ)
      → (a ≡ 0) ⊎ (a ≡ d.target)
      → (b ≡ 0) ⊎ (b ≡ d.target)
      → (bit_or a b ≡ 0) ⊎ (bit_or a b ≡ d.target)
  or_own a b (inl x) (inl y) = inl (rw (x, y) refl)
  or_own a b (inl x) (inr y) = inr (rw (x, y) (bit_or_zero d.target))
  or_own a b (inr x) (inl y) = inr (rw (x, y) (bit_or_comm d.target 0 ∙ bit_or_zero d.target))
  or_own a b (inr x) (inr y) = inr (rw (x, y) (bit_or_self d.target))

  or_fixed_own :
      (count i bits r : ℕ)
      → ((k : ℕ) → i ≤ k → k < i + count → IsOwn p (arraymap_iter_val e.fixed k))
      → (bits ≡ 0) ⊎ (bits ≡ d.target)
      → or_fixed e count i bits ≡ some r
      → (r ≡ 0) ⊎ (r ≡ d.target)
  unfolding or_fixed
  or_fixed_own zero i bits r own has done = rw (sym (some_inj done)) has
  or_fixed_own (suc count) i bits r own has done =
      let (b, read, small) =
        own_bits (arraymap_iter_val e.fixed i) (own i (omega arith) (omega arith)) in
      or_fixed_own count (i + 1) (bit_or bits b) r (λ k low high. own k (omega arith) (omega arith))
        (or_own bits b has small) (rw (or_fixed, read) at done)

  -- The filter before the new patch is active, and with it.
  pub filter_own :
      (u : Context)
      → ((k : ℕ) → k < e.fixed.cur_size → IsOwn p (arraymap_iter_val e.fixed k))
      → update_bits_filter e ≡ some u
      → bit_or u.fbits_filter d.target ≡ d.target
  unfolding update_bits_filter
  filter_own u own done = elim (Option-cases (or_fixed e e.fixed.cur_size 0 0)) [
    | inl gone ↦ absurd (let x = rw (gone, update_bits_filter) at done in cc)
    | inr (bits, here) ↦
        let same : bits ≡ u.fbits_filter =
          ap (λ (c : Context). c.fbits_filter) (some_inj (rw (here, update_bits_filter) at done)) in
        elim (or_fixed_own e.fixed.cur_size 0 0 bits (λ k low high. own k (omega arith)) (inl refl)
          here) [
            | inl zero_bits ↦ rw (sym same, zero_bits) (bit_or_zero d.target)
            | inr target_bits ↦ rw (sym same, target_bits) (bit_or_self d.target)
          ]
  ]

-- Through the filter, to an entry that is NULL or the active patch.
pub lookup_own :
    (g old : Context) (p loc j : ℕ) (patch : Patch)
    → p ≢ 0
    → g.fbits_filter ≡ loc
    → deref g.patches p ≡ some patch
    → patch.is_active ≡ true
    → IsMap old.fixed
    → ((k : ℕ) → k < old.fixed.cur_size → IsOwn p (arraymap_iter_val old.fixed k))
    → arraymap_get g.fixed j ≡ (if j == loc then some p else arraymap_get old.fixed j)
    → get_fixed_patch_by_lr g j
      ≡ (if passes loc j then (if j == loc then some p else arraymap_get old.fixed j) else some 0)
unfolding get_fixed_patch_by_lr
lookup_own g old p loc j patch n filter there active good own entry =
    let p0 : (p == 0) ≡ false = ground arith in
    let reads : active_or_null g p ≡ some p = rw (p0, rw p0 at there, active) refl in
    elim (Bool-cases (passes loc j)) [
      | inr stopped ↦ rw (filter, stopped) refl
      | inl through ↦ elim (Bool-cases (j == loc)) [
        | inl at_loc ↦ rw (filter, through, entry, at_loc) reads
        | inr elsewhere ↦ elim (get_cases old.fixed good j) [
          | inr (gone, was) ↦ rw (filter, through, entry, elsewhere, was) refl
          | inl (k, inside, key, was) ↦ elim (own k inside) [
            | inl null ↦
                let v : old.fixed.vals ! k ≡ 0 = sym (iter_val_at old.fixed k inside) ∙ null in
                rw (filter, through, entry, elsewhere, was, v) refl
            | inr same ↦
                let v : old.fixed.vals ! k ≡ p = sym (iter_val_at old.fixed k inside) ∙ same in
                rw (filter, through, entry, elsewhere, was, v) reads
          ]
        ]
      ]
    ]
