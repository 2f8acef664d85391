-- ===== src/Shipped/Sources.antt =====
-- update_server/patch_code: the C sources of filters, and the function of the firmware that one of
-- them mends.
use rapid_patch_runtime_ae.Common.{
  ℕ, zero, suc, ◌+◌, ◌-◌, ◌*◌, ◌%◌, ◌^◌, ◌==◌, ◌||◌, Option, none, some, Bool, ◌&&◌, leb,
  if◌then◌else◌, u32, u64,
}
use rapid_patch_runtime_ae.Common.Int.{pos, signed32, le_z, lt_z}
use rapid_patch_runtime_ae.Vm.Memory.{Memory, load}
use rapid_patch_runtime_ae.Dispatch.Points.{filter_pass, filter_drop}

-- ebpf_helper.h.
unfoldable pub set_return : ℕ → ℕ → ℕ
set_return op ret_code = u64 (u64 (op * 2 ^ 32) + ret_code)

-- `fix_bug` of atest_cve.ebpf.c, where the frame's `r0` is an `int`.
unfoldable pub fix_bug : ℕ → ℕ
unfolding set_return
fix_bug r0 =
    if le_z (signed32 r0) (pos 5000) && lt_z (pos 2000) (signed32 r0)
    then set_return filter_drop 0
    else set_return filter_pass 0

-- `filter` of zephyr_cve_2020_10063.ebpf.c, where `len` is the 16-bit number at `data + 5`.
unfoldable pub filter_option_len : ℕ → ℕ
unfolding set_return
filter_option_len len =
    if leb 0xffff (u32 (len + 0xfff)) then set_return 1 (2 ^ 32 - 22) else set_return 0 0

-- `test_dynamic_bug` of hotpatch/src/dynamic_patch_load.c, on the pattern of `v`.
unfoldable pub test_dynamic_bug : ℕ → ℕ
test_dynamic_bug v = if lt_z (pos 2000) (signed32 v) then 2 ^ 32 - 1 else 0

-- The test in the loop of AMNESIA33_cve_2020_17445.ebpf.c. `option` does not wrap around, which C
-- leaves undefined, and `len - optlen >= len` compares numbers of type `int`.
unfoldable pub refused : ℕ → ℕ → ℕ → ℕ → Bool
refused opt_ptr option len optlen =
    leb (u32 (opt_ptr + optlen)) opt_ptr || leb (option + optlen) option || leb (len + optlen) len

-- The `while` loop in `filter` of AMNESIA33_cve_2020_17445.ebpf.c with its `ret_code`, on fuel:
-- `none` is a read of unmapped memory, `some none` that the fuel is used up.
unfoldable pub walk_options : Memory → ℕ → ℕ → ℕ → ℕ → Option (Option ℕ)
walk_options m zero opt_ptr option len = some none
walk_options m (suc fuel) opt_ptr option len =
    if len == 0 then some (some 0) else elim (load m (u32 (option + 1)) 1) [
      | none ↦ none
      | some b ↦
          let optlen = (b + 2) % 256 in
          let rest =
            walk_options m fuel (u32 (opt_ptr + optlen)) (option + optlen)
              ((len + 256 - optlen) % 256) in
          if refused opt_ptr option len optlen then some (some (2 ^ 32 - 1)) else rest
    ]

-- The verdict on a `ret_code`.
abbrev pub intercept : ℕ → ℕ
intercept ret_code = set_return (if ret_code == 0 then 0 else 1) ret_code

-- `filter`, on the words that the frame holds for `r0` and `r2`.
unfoldable pub filter_destopt : Memory → ℕ → ℕ → ℕ → Option (Option ℕ)
unfolding walk_options refused set_return
filter_destopt m fuel r0 r2 = elim (load m (u32 (r0 + 1)) 1) [
  | none ↦ none
  | some d ↦ elim (walk_options m fuel (u32 (r2 + 2)) (r0 + 2) (((d + 1) * 8 + 254) % 256)) [
    | none ↦ none
    | some none ↦ some none
    | some (some ret_code) ↦ some (some (intercept ret_code))
  ]
]
