-- ===== src/Point/Mode.antt =====
-- The choice between flash patches and the debug monitor, in hotpatch/src/cortex-m4_fbp.c.
use rapid_patch_runtime_ae.Common.{
  ℕ, ◌-◌, ◌^◌, ◌<◌, ◌≡◌, ◌∙◌, refl, arith, List, Option, none, some, Bool, true, false, map, bit_or,
  if◌then◌else◌, get_elem?,
}
use rapid_patch_runtime_ae.Point.Comparators.{
  Image, Fpb, max_bp, fpb_enable, fpb_disable, code_comparators, clear_cells, clear_all_hw_bkpt,
  fpb_remap_init,
}
use rapid_patch_runtime_ae.Point.Bounds.{IsFpb, clear_cells_from}

-- `patch_mode_t`; `other_mode` is a number that names neither.
pub data PatchMode : Type 0 where
  cortex_fpb_patch cortex_deb_mon_patch other_mode : PatchMode

-- `DEMCR`, and the last values written to the other registers of the debug monitor.
pub record Monitor : Type 0 where
  pub demcr : ℕ
  pub hfsr : ℕ
  pub dfsr : ℕ
  pub shp8 : ℕ

-- `debug_monitor_init`; `halting` is what `halting_debug_enabled` reads.
unfoldable pub debug_monitor_init : Bool → Fpb → Monitor → Fpb × Monitor
unfolding fpb_enable
debug_monitor_init halting u dbg =
    let reset = record dbg { hfsr = 2 ^ 31; dfsr = 2 ^ 2 } in
    if halting
    then (u, reset)
    else (fpb_enable u, record reset { demcr = bit_or dbg.demcr (2 ^ 16); shp8 = 2 ^ 32 - 1 })

unfoldable pub set_patch_mode : Image → Bool → PatchMode → Fpb → Monitor → Option (Fpb × Monitor)
unfolding fpb_remap_init debug_monitor_init
set_patch_mode image halting mode u dbg = elim (clear_all_hw_bkpt u) [
  | none ↦ none
  | some v ↦
      let plain = record v { table = map (λ w. 0) v.table; active = false; remap = 0 } in
      elim mode [
        | cortex_fpb_patch ↦ some (fpb_remap_init plain image.patch_tbl, dbg)
        | cortex_deb_mon_patch ↦ some (debug_monitor_init halting plain dbg)
        | other_mode ↦ some (plain, dbg)
      ]
]

-- `debug_monitor_init` changes the control register alone of the unit.
debug_monitor_init-IsFpb :
    (halting : Bool) (u : Fpb) (dbg : Monitor)
    → IsFpb u
    → let v = (debug_monitor_init halting u dbg).0 in
      IsFpb v × (v.active ≡ u.active) × (v.remap ≡ u.remap) × (v.comp ≡ u.comp)
unfolding debug_monitor_init fpb_enable
debug_monitor_init-IsFpb true u dbg w = (w, refl, refl, refl)
debug_monitor_init-IsFpb false u dbg w = (
  record { comp_count = w.comp_count; num_count = w.num_count; idx_width = w.idx_width },
  refl,
  refl,
  refl,
)

clears :
    (u : Fpb) (zs : List ℕ)
    → code_comparators u.ctrl ≡ max_bp
    → clear_cells 0 max_bp u.comp ≡ some zs
    → clear_all_hw_bkpt u ≡ some (fpb_disable (record u { comp = zs; cur_idx = 0 }))
unfolding clear_all_hw_bkpt
clears u zs num e = rw (num, e, clear_all_hw_bkpt) refl

-- Where the control register counts as many code comparators as there are registers, changing to
-- the debug monitor always succeeds and leaves what adding breakpoints in that mode needs: a
-- well-formed unit with the remap off, and every register zero.
set_patch_mode-IsFpb :
    (image : Image) (halting : Bool) (u : Fpb) (dbg : Monitor)
    → IsFpb u
    → code_comparators u.ctrl ≡ max_bp
    → (v : Fpb) × (m : Monitor) × (set_patch_mode image halting PatchMode.cortex_deb_mon_patch u dbg
        ≡ some (v, m))
      × IsFpb v
      × (v.active ≡ false)
      × (v.remap ≡ 0)
      × ((k : ℕ) → k < max_bp → get_elem? v.comp k ≡ some 0)
unfolding set_patch_mode fpb_disable
set_patch_mode-IsFpb image halting u dbg w num =
    let (zs, e, len, zeros, before) =
      clear_cells_from 0 max_bp u.comp (omega (arith, w.comp_count)) in
    let cleared = fpb_disable (record u { comp = zs; cur_idx = 0 }) in
    let plain : Fpb = record cleared { table = map (λ w. 0) u.table; active = false; remap = 0 } in
    let fine : IsFpb plain = record {
      comp_count = len ∙ w.comp_count;
      num_count = w.num_count;
      idx_width = omega arith;
    } in
    let (good, active, remap, comp) = debug_monitor_init-IsFpb halting plain dbg fine in
    (
      (debug_monitor_init halting plain dbg).0,
      (debug_monitor_init halting plain dbg).1,
      rw (clears u zs num e, set_patch_mode) refl,
      good,
      active,
      remap,
      λ k h. rw comp (zeros k (omega arith) (omega arith)),
    )
