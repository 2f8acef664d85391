-- ===== src/Tests/Loading.antt =====
-- The loader of the firmware's fixed patches at a concrete registry.
use rapid_patch_runtime_ae.Common.{
  ℕ, inr, zero, suc, ◌<◌, ◌≡◌, ◌≤◌, ◌^◌, ◌⊎◌, ◌↔◌, refl, arith, List, [], ◌∷◌, length, some, none,
  true, false, ◌==◌, if◌then◌else◌,
}
use rapid_patch_runtime_ae.Container.ArrayMap.{arraymap_get, arraymap_iter_val}
use rapid_patch_runtime_ae.Shipped.Alone.{IsOwn}
use rapid_patch_runtime_ae.Patch.Context.{deref}
use rapid_patch_runtime_ae.Patch.Lookup.{passes, get_fixed_patch_by_lr}
use rapid_patch_runtime_ae.Shipped.Programs.{test_cve, zephyr_cve_10063}
use rapid_patch_runtime_ae.Shipped.Loader.{
  LocalPatch, Loader, Fresh, pick_local, load_local_fixed_patch,
}
use rapid_patch_runtime_ae.Shipped.Picking.{pick_local-none}
use rapid_patch_runtime_ae.Shipped.Loading.{IsLoaded, load_local_fixed_patch-replaces}
use rapid_patch_runtime_ae.Tests.Points.{image}
use rapid_patch_runtime_ae.Tests.Patching.{context, slack, readable, fixed_desc, fixed_patch}
use rapid_patch_runtime_ae.Tests.Fixed.{fixed-IsMap, fixed-Settable}

abbrev patch_list : List LocalPatch
patch_list =
    record { loc = 0x0800_4000; code = test_cve }
    ∷ record { loc = 0x0800_5000; code = zephyr_cve_10063 }
    ∷ []

abbrev second : LocalPatch
second = record { loc = 0x0800_5000; code = zephyr_cve_10063 }

abbrev loader : Loader
loader = record {
  is_init = true;
  desc = 0x100;
  patch = 0x200;
  context = context;
  vms = λ p.
      if p == 0x300 then some (record { code = test_cve; use_jit = false; jit = none }) else none;
}

abbrev fresh : Fresh
fresh = record { desc = 0; patch = 0; vm = 0; keys = []; vals = [] }

picked : pick_local patch_list 1 ≡ some (some second)
unfolding pick_local
picked = refl

loader-IsLoaded : IsLoaded slack loader 0x0800_5000 fixed_patch fixed_desc
loader-IsLoaded = record {
  ready = refl;
  registry = refl;
  readable = readable;
  is_map = fixed-IsMap;
  settable = fixed-Settable;
  patch_there = refl;
  desc_there = refl;
  machine = λ e. omega arith;
}

own : (k : ℕ) → k < 1 → IsOwn 0x200 (arraymap_iter_val context.fixed k)
unfolding arraymap_iter_val
own zero h = inr refl
own (suc k) h = absurd (omega arith)

load_local_fixed_patch-replaces_example :
    (t : Loader) × (load_local_fixed_patch image slack fresh patch_list loader 1 ≡ some t)
    × (get_fixed_patch_by_lr t.context 0x0800_5000 ≡ some 0x200)
    × (deref t.context.patches 0x200 ≡ some (record { desc = 0x100; vm = 0x300; is_active = true }))
    × (deref t.vms 0x300 ≡ some (record { code = zephyr_cve_10063; use_jit = false; jit = none }))
    × ((j : ℕ)
        → get_fixed_patch_by_lr t.context j ≡ (
            if passes 0x0800_5000 j
            then (if j == 0x0800_5000 then some 0x200 else arraymap_get context.fixed j)
            else some 0))
load_local_fixed_patch-replaces_example =
    load_local_fixed_patch-replaces image slack fresh patch_list loader 1 second fixed_patch
      fixed_desc picked loader-IsLoaded own

pick_local-none_example :
    (pick_local patch_list 2 ≡ none) ↔ ((2 ≡ length patch_list) ⊎ (2 ^ 31 ≤ 2))
pick_local-none_example = pick_local-none patch_list 2 (omega arith) (omega arith)
