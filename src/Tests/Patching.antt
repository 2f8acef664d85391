-- ===== src/Tests/Patching.antt =====
-- The registry of patches: the theorems at a concrete context.
use Prim.Native.Nat.{◌+◌}
use rapid_patch_runtime_ae.Common.{
  Bool, ℕ, zero, suc, ◌≡◌, ◌≢◌, refl, arith, [], ◌∷◌, some, none, true, get_elem?, replicate, inr,
  ◌==◌, ◌||◌, if◌then◌else◌,
}
use rapid_patch_runtime_ae.Container.ArrayMap.{Slack, arraymap_iter_val}
use rapid_patch_runtime_ae.Point.Address.{even, word_aligned}
use rapid_patch_runtime_ae.Point.Bounds.{Armed}
use rapid_patch_runtime_ae.Patch.Context.{PatchType, Desc, Patch, Node, Context, update_bits_filter}
use rapid_patch_runtime_ae.Patch.Registry.{notify_new_patch}
use rapid_patch_runtime_ae.Patch.Lookup.{
  find_node, get_dynamic_patch_by_bpkt, get_dynamic_patch_by_pc, get_dynamic_patch_by_fpb,
}
use rapid_patch_runtime_ae.Patch.Filter.{
  FiltersNodes, Filtered, update_bits_filter-Filtered, get_dynamic_patch_unfiltered,
}
use rapid_patch_runtime_ae.Patch.Notify.{IsReadable, notify_new_patch-get}
use rapid_patch_runtime_ae.Dispatch.Points.{StackContext, run_patch_here}
use rapid_patch_runtime_ae.Dispatch.Verdicts.{Obeys, notify_new_patch-run_patch_here}
use rapid_patch_runtime_ae.Tests.Points.{image, unit, unit-IsFpb}

abbrev pub fixed_desc : Desc
fixed_desc = record { kind = PatchType.fixed_patch_point; target = 0x0800_4000 }

abbrev dynamic_desc : Desc
dynamic_desc = record { kind = PatchType.dynamic_patch_point; target = 0x0800_2002 }

abbrev pub second_fixed_desc : Desc
second_fixed_desc = record { kind = PatchType.fixed_patch_point; target = 0x0800_5000 }

abbrev pub fixed_patch : Patch
fixed_patch = record { desc = 0x100; vm = 0x300; is_active = true }

abbrev node : ℕ → Node
node a = record { patch = 0x200; inst_addr = a; pc_addr = a + 2 }

abbrev pub context : Context
context = record {
  ctx_init = true;
  fbits_filter = 0;
  fixed = record {
    max_size = 4;
    cur_size = 1;
    keys = 0x0800_4000 ∷ replicate 3 0;
    vals = 0x200 ∷ replicate 3 0;
  };
  dbits_filter_bpkt = 0;
  dbits_filter_pc = 0;
  nodes = node 0x0800_1000 ∷ [];
  patches = λ p. if p == 0x200 then some fixed_patch else none;
  descs = λ p.
      if p == 0x100
      then some fixed_desc
      else if p == 0x180
      then some dynamic_desc
      else if p == 0x1c0
      then some second_fixed_desc
      else none;
  fpb = unit;
}

abbrev pub filtered : Context
filtered = record context {
  fbits_filter = 0x0800_4000;
  dbits_filter_bpkt = 0x0800_1000;
  dbits_filter_pc = 0x0800_1002;
}

updated : update_bits_filter context ≡ some filtered
unfolding update_bits_filter arraymap_iter_val
updated = refl

update_bits_filter-Filtered_example : Filtered context filtered
update_bits_filter-Filtered_example = update_bits_filter-Filtered context filtered updated

filters : FiltersNodes filtered
filters = (update_bits_filter-Filtered context filtered updated).0

get_dynamic_patch_unfiltered_example :
    (get_dynamic_patch_by_bpkt filtered 0x0800_1000
      ≡ find_node filtered (λ dp. dp.inst_addr == 0x0800_1000) filtered.nodes)
    × (get_dynamic_patch_by_pc filtered 0x0800_1000
        ≡ find_node filtered (λ dp. dp.pc_addr == 0x0800_1000) filtered.nodes)
    × (get_dynamic_patch_by_fpb filtered 0x0800_1000
        ≡ find_node filtered
            (λ dp. (dp.inst_addr == 0x0800_1000) || (dp.inst_addr == even 0x0800_1000))
            filtered.nodes)
get_dynamic_patch_unfiltered_example =
    get_dynamic_patch_unfiltered context filtered 0x0800_1000 updated

abbrev pub slack : Slack
slack = record { tail_keys = replicate 4 0; tail_vals = replicate 4 0 }

pub readable : IsReadable context
unfolding arraymap_iter_val
readable zero h = inr (fixed_patch, fixed_desc, refl, refl)
readable (suc i) h = absurd (omega arith)

notify_new_patch-get_example :
    (g : Context) × (notify_new_patch image slack 0x340 0x240 context 0x180 ≡ some g)
    × (get_dynamic_patch_by_bpkt g (word_aligned 0x0800_2002) ≡ some 0x240)
    × ((i : ℕ) × Armed g.fpb i (word_aligned 0x0800_2002))
notify_new_patch-get_example =
    notify_new_patch-get image slack 0x340 0x240 0x180 context dynamic_desc readable unit-IsFpb refl
      (λ e. omega arith) (λ e. omega arith) (λ e. omega arith) refl refl (omega arith)

others :
    (i : ℕ) (d : Node) → get_elem? (node 0x0800_1000 ∷ []) i ≡ some d → d.inst_addr ≢ 0x0800_2000
others zero d e h = ground arith
others (suc i) d e h = cc

abbrev stopped : StackContext
stopped = record {
  r0 = 1;
  r1 = 2;
  r2 = 3;
  r3 = 4;
  r12 = 0;
  lr = 0x0800_0501;
  pc = 0x0800_2000;
  xpsr = 0;
}

-- A program that drops every call with code 7.
abbrev drops : ℕ → StackContext → ℕ × StackContext
drops p ctx = (0x1_0000_0007, ctx)

at_word : stopped.pc ≡ word_aligned 0x0800_2002
at_word = refl

notify_new_patch-run_patch_here_example :
    (g : Context) × (notify_new_patch image slack 0x340 0x240 context 0x180 ≡ some g)
    × ((r : Bool × StackContext) × (run_patch_here drops g stopped ≡ some r)
        × Obeys (drops 0x240 stopped).0 (drops 0x240 stopped).1 r)
notify_new_patch-run_patch_here_example =
    notify_new_patch-run_patch_here image slack 0x340 0x240 0x180 context dynamic_desc readable
      unit-IsFpb refl (λ e. omega arith) (λ e. omega arith) (λ e. omega arith) refl refl
      (omega arith) drops stopped at_word
