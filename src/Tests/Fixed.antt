-- ===== src/Tests/Fixed.antt =====
-- The registration of a fixed patch at a concrete context.
use rapid_patch_runtime_ae.Common.{◌≡◌, refl, arith, some, inl, inr}
use rapid_patch_runtime_ae.Container.Sorted.{IsSorted}
use rapid_patch_runtime_ae.Container.Lookup.{IsMap}
use rapid_patch_runtime_ae.Container.SetGet.{Settable}
use rapid_patch_runtime_ae.Patch.Context.{Context}
use rapid_patch_runtime_ae.Patch.Registry.{notify_new_patch}
use rapid_patch_runtime_ae.Patch.Lookup.{get_fixed_patch_by_lr}
use rapid_patch_runtime_ae.Patch.FixedNotify.{notify_new_patch-get_fixed}
use rapid_patch_runtime_ae.Tests.Points.{image}
use rapid_patch_runtime_ae.Tests.Patching.{context, slack, readable, second_fixed_desc}

one-IsSorted : IsSorted context.fixed.keys 1
one-IsSorted i j p q = absurd (omega arith)

pub fixed-IsMap : IsMap context.fixed
fixed-IsMap = record {
  room = omega arith;
  width = omega arith;
  key_cells = refl;
  val_cells = refl;
  sorted = one-IsSorted;
}

pub fixed-Settable : Settable slack context.fixed 0x0800_5000
fixed-Settable = record {
  grows = omega arith;
  tail_keys = refl;
  tail_vals = refl;
  readable = inl (omega arith);
  behind = omega arith;
  above_first = inr (omega arith, omega arith);
}

notify_new_patch-get_fixed_example :
    (g : Context) × (notify_new_patch image slack 0x340 0x240 context 0x1c0 ≡ some g)
    × (get_fixed_patch_by_lr g 0x0800_5000 ≡ some 0x240)
notify_new_patch-get_fixed_example =
    notify_new_patch-get_fixed image slack 0x340 0x240 0x1c0 context second_fixed_desc readable
      fixed-IsMap fixed-Settable (λ e. omega arith) (λ e. omega arith) (λ e. omega arith) refl refl
