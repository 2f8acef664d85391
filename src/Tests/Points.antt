-- ===== src/Tests/Points.antt =====
-- Breakpoints: the theorems at a concrete unit and concrete addresses.
use rapid_patch_runtime_ae.Common.{ℕ, ◌≡◌, refl, arith, [], ◌∷◌, some, true, false, replicate, inr}
use rapid_patch_runtime_ae.Common.Int.{pos}
use rapid_patch_runtime_ae.Point.Address.{even, comparator}
use rapid_patch_runtime_ae.Point.Branch.{
  branch_offset, calc_branch_instr, target_of, InReach, calc_branch_instr_target,
}
use rapid_patch_runtime_ae.Point.Comparators.{Image, Fpb, max_bp, add_hw_bkpt, code_comparators}
use rapid_patch_runtime_ae.Point.Bounds.{IsFpb, Armed, add_hw_bkpt_placed}
use rapid_patch_runtime_ae.Point.Mode.{Monitor}

abbrev pub image : Image
image = record {
  half = λ a. 0xbf00;
  word = λ a. 0xbf00_bf00;
  handlers = 0x0800_0101 ∷ 0x0800_0121 ∷ 0x0800_0141 ∷ 0x0800_0161 ∷ 0x0800_0181 ∷ 0x0800_01a1 ∷ [];
  patch_tbl = 0x2000_0020;
}

abbrev pub unit : Fpb
unit = record {
  ctrl = 0x60;
  remap = 0;
  comp = 0x4800_1001 ∷ replicate 5 0;
  cur_idx = 1;
  bpkt_num = 6;
  is_init = true;
  active = false;
  table = replicate 8 0;
}

pub unit-IsFpb : IsFpb unit
unit-IsFpb = record { comp_count = refl; num_count = λ _. refl; idx_width = omega arith }

near : InReach 0x0800_1000 0x0800_0101
unfolding branch_offset
near = inr (omega arith)

calc_branch_instr_target_example :
    target_of 0x0800_1000 (calc_branch_instr 0x0800_1000 0x0800_0101) ≡ some (even 0x0800_0101)
calc_branch_instr_target_example =
    calc_branch_instr_target 0x0800_1000 0x0800_0101 (omega arith) (omega arith) near

add_hw_bkpt_placed_example :
    (v : Fpb) × (i : ℕ) × (add_hw_bkpt image unit 0x0800_2002 ≡ some (v, pos i))
    × Armed v i 0x0800_2002
    × IsFpb v
    × (v.active ≡ false)
add_hw_bkpt_placed_example = add_hw_bkpt_placed image unit 0x0800_2002 unit-IsFpb refl (omega arith)

armed : Armed unit 0 0x0800_1000
unfolding comparator
armed = refl

six : code_comparators unit.ctrl ≡ max_bp
unfolding code_comparators
six = refl

abbrev monitor : Monitor
monitor = record { demcr = 0; hfsr = 0; dfsr = 0; shp8 = 0 }
