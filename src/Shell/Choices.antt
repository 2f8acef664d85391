-- ===== src/Shell/Choices.antt =====
-- `run_test_by_id` and `handle_trigger_func` of app/ihp_cli.c: a function picked from a table.
use rapid_patch_runtime_ae.Common.{
  ℕ, ◌≡◌, ◌<◌, ◌^◌, arith, refl, List, [], ◌∷◌, Option, none, some, Bool, true, false, ltb, leb,
  ◌==◌, zero, suc, Bool-cases, inl, inr, if◌then◌else◌, length, get_elem?,
}
use rapid_patch_runtime_ae.Common.Int.{ℤ, pos, negsuc, signed32, le_z}

-- The functions of `cmds`, in its order.
pub data TestFunc : Type 0 where
  test_debug_kprobe_patch test_debug_fpb_patch reset_patch run_eva_test : TestFunc
  start_patch_service run_fixed_patch_point_test : TestFunc
  run_load_fixed_patch_point_test run_unbounded_loop_test : TestFunc

abbrev pub cmds : List TestFunc
cmds =
    TestFunc.test_debug_kprobe_patch ∷ TestFunc.test_debug_fpb_patch ∷ TestFunc.reset_patch
    ∷ TestFunc.run_eva_test ∷ TestFunc.start_patch_service ∷ TestFunc.run_fixed_patch_point_test
    ∷ TestFunc.run_load_fixed_patch_point_test ∷ TestFunc.run_unbounded_loop_test ∷ []

-- What a choice from a table comes to; `astray` is a call of what lies outside the table.
pub data Choice (F : Type 0) : Type 0 where
  refused astray : Choice F
  picked : F → Choice F

abbrev entry : {F : Type 0} → Option F → Choice F
entry none = Choice.astray
entry (some f) = Choice.picked f

-- `cid` is unsigned, and so is the comparison.
unfoldable pub run_test_by_id : ℕ → Choice TestFunc
run_test_by_id cid =
    let ncmd = length cmds in if ltb ncmd cid then Choice.refused else entry (get_elem? cmds cid)

-- The table of triggers that the build uses, at a signed index.
abbrev at_index : {F : Type 0} → List F → ℤ → Choice F
at_index list (pos i) = entry (get_elem? list i)
at_index list (negsuc i) = Choice.astray

unfoldable pub handle_trigger_func : {F : Type 0} → List F → ℕ → Choice F
handle_trigger_func list tid =
    let n = length list in
    if le_z (pos n) (signed32 tid) then Choice.refused else at_index list (signed32 tid)

abbrev pub is_astray : {F : Type 0} → Choice F → Bool
is_astray Choice.refused = false
is_astray Choice.astray = true
is_astray (Choice.picked f) = false

beyond_tests : (cid : ℕ) → 8 < cid → is_astray (run_test_by_id cid) ≡ (cid == 8)
unfolding run_test_by_id
beyond_tests cid h =
    let over : ltb 8 cid ≡ true = ground arith in
    let other : (cid == 8) ≡ false = ground arith in rw (over, other) refl

-- For every number: the test that is run lies behind the table if the number is 8, and only then.
pub run_test_by_id-astray : (cid : ℕ) → is_astray (run_test_by_id cid) ≡ (cid == 8)
unfolding run_test_by_id
run_test_by_id-astray zero = refl
run_test_by_id-astray (suc (zero)) = refl
run_test_by_id-astray (suc (suc (zero))) = refl
run_test_by_id-astray (suc (suc (suc (zero)))) = refl
run_test_by_id-astray (suc (suc (suc (suc (zero))))) = refl
run_test_by_id-astray (suc (suc (suc (suc (suc (zero)))))) = refl
run_test_by_id-astray (suc (suc (suc (suc (suc (suc (zero))))))) = refl
run_test_by_id-astray (suc (suc (suc (suc (suc (suc (suc (zero)))))))) = refl
run_test_by_id-astray (suc (suc (suc (suc (suc (suc (suc (suc (zero))))))))) = refl
run_test_by_id-astray (suc (suc (suc (suc (suc (suc (suc (suc (suc (n)))))))))) =
    beyond_tests (suc (suc (suc (suc (suc (suc (suc (suc (suc (n)))))))))) (omega arith)

entry-inside :
    {F : Type 0} (list : List F) (i : ℕ)
    → i < length list
    → is_astray (entry (get_elem? list i)) ≡ false
entry-inside [] i h = absurd (omega arith)
entry-inside (f ∷ list) zero h = refl
entry-inside (f ∷ list) (suc i) h = entry-inside list i (omega arith)

-- For every 32 bit index and every table shorter than 2^31: the trigger that is called lies outside
-- the table exactly for a negative index.
handle_trigger_func-astray :
    {F : Type 0} (list : List F) (tid : ℕ)
    → length list < 2 ^ 31
    → tid < 2 ^ 32
    → is_astray (handle_trigger_func list tid) ≡ leb (2 ^ 31) tid
unfolding handle_trigger_func
handle_trigger_func-astray list tid short word = elim (Bool-cases (ltb tid (2 ^ 31))) [
  | inl positive ↦
      let none_set : leb (2 ^ 31) tid ≡ false = ground arith in
      rw (positive, none_set)
        (elim (Bool-cases (leb (length list) tid)) [
          | inl high ↦ rw high refl
          | inr low ↦
              let inside : tid < length list = ground arith in
              rw (low, entry-inside list tid inside) refl
        ])
  | inr negative ↦ let is_set : leb (2 ^ 31) tid ≡ true = ground arith in rw (negative, is_set) refl
]
