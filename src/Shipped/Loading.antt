-- ===== src/Shipped/Loading.antt =====
-- A program of the firmware that replaces another in the one patch object of
-- hotpatch/src/fixed_patch_load.c.
use rapid_patch_runtime_ae.Common.{
  ℕ, ◌<◌, ◌≡◌, ◌≢◌, ◌∙◌, refl, ap, arith, List, Bool, Option, none, some, true, false, ◌==◌,
  if◌then◌else◌, inl, inr,
}
use rapid_patch_runtime_ae.Container.ArrayMap.{
  ArrayMap, Slack, arraymap_iter_val, arraymap_get, arraymap_set,
}
use rapid_patch_runtime_ae.Container.Lookup.{IsMap}
use rapid_patch_runtime_ae.Container.SetGet.{Settable}
use rapid_patch_runtime_ae.Point.Comparators.{Image}
use rapid_patch_runtime_ae.Patch.Context.{
  PatchType, Desc, Patch, Context, deref, assign, init_patch_sys,
}
use rapid_patch_runtime_ae.Patch.Registry.{
  add_fixed_patch_to_ctx, active_patch, load_local_patch_to_ctx,
}
use rapid_patch_runtime_ae.Patch.Lookup.{passes, get_fixed_patch_by_lr}
use rapid_patch_runtime_ae.Shipped.Alone.{IsOwn, filter_own, lookup_own}
use rapid_patch_runtime_ae.Patch.Notify.{IsReadable, deref-assign, still-Exists}
use rapid_patch_runtime_ae.Patch.FixedNotify.{
  set_answers, entries-All, entries-Exists, activates_fixed,
}
use rapid_patch_runtime_ae.Shipped.Loader.{
  LocalPatch, LocalVm, Loader, Fresh, init_objects, describe, attach_vm, load_fixed, pick_local,
  load_local_fixed_patch,
}

-- The state of a loader that has run before: its objects are there, and the registry is in order.
pub record IsLoaded (sl : Slack) (s : Loader) (loc : ℕ) (patch : Patch) (d : Desc) : Type 0 where
  pub ready : s.is_init ≡ true
  pub registry : s.context.ctx_init ≡ true
  pub readable : IsReadable s.context
  pub is_map : IsMap s.context.fixed
  pub settable : Settable sl s.context.fixed loc
  pub patch_there : deref s.context.patches s.patch ≡ some patch
  pub desc_there : deref s.context.descs s.desc ≡ some d
  pub machine : patch.vm ≢ 0

abbrev interpreted : LocalPatch → LocalVm
interpreted pt = record { code = pt.code; use_jit = false; jit = none }

abbrev described : LocalPatch → Desc
described pt = record { kind = PatchType.fixed_patch_point; target = pt.loc }

-- The objects after `describe` and `attach_vm`.
abbrev changed : Loader → LocalPatch → Patch → Context
changed s pt patch = record s.context {
  descs = assign s.context.descs s.desc (described pt);
  patches = assign s.context.patches s.patch (record patch { desc = s.desc });
}

not_null : {A : Type 0} (heap : ℕ → Option A) (p : ℕ) (x : A) → deref heap p ≡ some x → p ≢ 0
not_null heap p x e zero = ground arith

init_objects-ready : (fresh : Fresh) (s : Loader) → s.is_init ≡ true → init_objects fresh s ≡ s
unfolding init_objects
init_objects-ready fresh s ready =
    let pick : (b : Bool) (x : Loader) → b ≡ true → (if b then s else x) ≡ s = λ b x e. rw e refl in
    pick s.is_init _ ready

init_patch_sys-ready :
    (keys vals : List ℕ) (c : Context) → c.ctx_init ≡ true → init_patch_sys keys vals c ≡ some c
unfolding init_patch_sys
init_patch_sys-ready keys vals c ready =
    let pick : (b : Bool) (x : Option Context) → b ≡ true → (if b then some c else x) ≡ some c =
      λ b x e. rw e refl in
    pick c.ctx_init _ ready

-- The registry takes the changed patch.
entered :
    (image : Image) (sl : Slack) (s : Loader) (pt : LocalPatch) (patch : Patch) (m : ArrayMap)
    (g : Context)
    → s.patch ≢ 0
    → s.desc ≢ 0
    → arraymap_set sl s.context.fixed pt.loc s.patch ≡ some m
    → active_patch image (record (changed s pt patch) { fixed = m }) s.patch ≡ some g
    → load_local_patch_to_ctx image sl (changed s pt patch) s.patch ≡ some g
unfolding load_local_patch_to_ctx add_fixed_patch_to_ctx
entered image sl s pt patch m g p q done active =
    let ep = deref-assign s.context.patches s.patch (record patch { desc = s.desc }) p in
    let ed = deref-assign s.context.descs s.desc (described pt) q in
    rw (ep, ed) (rw (ep, ed, done) active)

enters :
    (image : Image) (sl : Slack) (fresh : Fresh) (s : Loader) (pt : LocalPatch) (patch : Patch)
    (d : Desc) (m : ArrayMap) (g : Context)
    → IsLoaded sl s pt.loc patch d
    → arraymap_set sl s.context.fixed pt.loc s.patch ≡ some m
    → active_patch image (record (changed s pt patch) { fixed = m }) s.patch ≡ some g
    → load_fixed image sl fresh s pt
      ≡ some (record s { context = g; vms = assign s.vms patch.vm (interpreted pt) })
unfolding load_fixed describe attach_vm
enters image sl fresh s pt patch d m g ok done active =
    let p = not_null s.context.patches s.patch patch ok.patch_there in
    let q = not_null s.context.descs s.desc d ok.desc_there in
    let vm0 : (patch.vm == 0) ≡ false = let v = ok.machine in ground arith in
    let load = entered image sl s pt patch m g p q done active in
    rw
      (
        init_objects-ready fresh s ok.ready,
        init_patch_sys-ready fresh.keys fresh.vals s.context ok.registry,
        ok.desc_there,
        ok.patch_there,
        vm0,
        vm0,
        load,
      )
      refl

load_fixed-replaces :
    (image : Image) (sl : Slack) (fresh : Fresh) (s : Loader) (pt : LocalPatch) (patch : Patch)
    (d : Desc)
    → IsLoaded sl s pt.loc patch d
    → ((k : ℕ) → k < s.context.fixed.cur_size → IsOwn s.patch (arraymap_iter_val s.context.fixed k))
    → (t : Loader) × (load_fixed image sl fresh s pt ≡ some t)
      × (get_fixed_patch_by_lr t.context pt.loc ≡ some s.patch)
      × (deref t.context.patches s.patch
          ≡ some (record { desc = s.desc; vm = patch.vm; is_active = true }))
      × (deref t.vms patch.vm ≡ some (interpreted pt))
      × ((j : ℕ)
          → get_fixed_patch_by_lr t.context j ≡ (
              if passes pt.loc j
              then (if j == pt.loc then some s.patch else arraymap_get s.context.fixed j)
              else some 0))
load_fixed-replaces image sl fresh s pt patch d ok own =
    let p = not_null s.context.patches s.patch patch ok.patch_there in
    let q = not_null s.context.descs s.desc d ok.desc_there in
    let (m, done, better, answers) =
      set_answers sl s.context.fixed ok.is_map pt.loc s.patch ok.settable in
    let attached : Patch = record patch { desc = s.desc } in
    let e : Context = record (changed s pt patch) { fixed = m } in
    let ep = deref-assign s.context.patches s.patch attached p in
    let ed = deref-assign s.context.descs s.desc (described pt) q in
    let lift =
      still-Exists s.context e s.patch s.desc attached d (described pt) refl refl refl p q in
    let readable =
      entries-Exists s.context e pt.loc s.patch ok.is_map better answers lift
        (inr (attached, described pt, ep, ed)) ok.readable in
    let all_own : (k : ℕ) → k < e.fixed.cur_size → IsOwn s.patch (arraymap_iter_val e.fixed k) =
      entries-All s.context e pt.loc s.patch (IsOwn s.patch) (IsOwn s.patch) ok.is_map better
        answers (λ x h. h) (inr refl) (inl refl) own in
    let here : (pt.loc == pt.loc) ≡ true = ground arith in
    let (g, active, found, entries, object, (u, upd, bits)) =
      activates_fixed image e s.patch attached (described pt) readable p ep ed refl
        (rw here at (answers pt.loc)) in
    (
      record s { context = g; vms = assign s.vms patch.vm (interpreted pt) },
      enters image sl fresh s pt patch d m g ok done active,
      found,
      object,
      deref-assign s.vms patch.vm (interpreted pt) ok.machine,
      λ j.
          lookup_own g s.context s.patch pt.loc j (record attached { is_active = true }) p
            (bits ∙ filter_own e s.patch attached (described pt) ep ed u all_own upd) object refl
            ok.is_map own (ap (λ (x : ArrayMap). arraymap_get x j) entries ∙ answers j),
    )

-- A program of the list that `load_local_fixed_patch` loads after another one, into a registry whose
-- fixed patches are all the loader's one object, which is there with its description and its
-- machine, and whose map is well-formed and can take the location (`Settable`): the loader succeeds,
-- and the object is active and has the new program, to be interpreted. The filter is then the new
-- location alone: that location finds the object, a location with a bit that the new one lacks finds
-- NULL, whatever the map holds for it, and any other finds what the map held for it before.
pub load_local_fixed_patch-replaces :
    (image : Image) (sl : Slack) (fresh : Fresh) (patch_list : List LocalPatch) (s : Loader)
    (pid : ℕ) (pt : LocalPatch) (patch : Patch) (d : Desc)
    → pick_local patch_list pid ≡ some (some pt)
    → IsLoaded sl s pt.loc patch d
    → ((k : ℕ) → k < s.context.fixed.cur_size → IsOwn s.patch (arraymap_iter_val s.context.fixed k))
    → (t : Loader) × (load_local_fixed_patch image sl fresh patch_list s pid ≡ some t)
      × (get_fixed_patch_by_lr t.context pt.loc ≡ some s.patch)
      × (deref t.context.patches s.patch
          ≡ some (record { desc = s.desc; vm = patch.vm; is_active = true }))
      × (deref t.vms patch.vm ≡ some (record { code = pt.code; use_jit = false; jit = none }))
      × ((j : ℕ)
          → get_fixed_patch_by_lr t.context j ≡ (
              if passes pt.loc j
              then (if j == pt.loc then some s.patch else arraymap_get s.context.fixed j)
              else some 0))
unfolding load_local_fixed_patch
load_local_fixed_patch-replaces image sl fresh patch_list s pid pt patch d picked ok own =
    let (t, loads, found, object, machine, entries) =
      load_fixed-replaces image sl fresh s pt patch d ok own in
    (t, rw (picked, loads) refl, found, object, machine, entries)
