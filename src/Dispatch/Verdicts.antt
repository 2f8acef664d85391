-- ===== src/Dispatch/Verdicts.antt =====
-- What a patch that was just registered does at its instruction.
use rapid_patch_runtime_ae.Common.{
  ℕ, ◌^◌, ◌<◌, ◌≡◌, ◌≢◌, ◌∙◌, refl, ap, arith, inl, inr, Bool-cases, ==_iff, some, Bool, true,
  false, ◌==◌,
}
use rapid_patch_runtime_ae.Container.ArrayMap.{Slack}
use rapid_patch_runtime_ae.Point.Address.{word_aligned}
use rapid_patch_runtime_ae.Point.Comparators.{Image}
use rapid_patch_runtime_ae.Point.Bounds.{IsFpb}
use rapid_patch_runtime_ae.Patch.Context.{PatchType, Desc, Context}
use rapid_patch_runtime_ae.Patch.Registry.{notify_new_patch}
use rapid_patch_runtime_ae.Patch.Lookup.{get_dynamic_patch_by_bpkt}
use rapid_patch_runtime_ae.Patch.Notify.{IsReadable, notify_new_patch-get}
use rapid_patch_runtime_ae.Dispatch.Points.{
  StackContext, filter_drop, filter_redirect, op_of, code_of, run_patch_here,
}

-- What is to happen to the interrupted function, by the result of the filter: drop returns to its
-- caller with the code, redirect goes on at the code, and else it goes on where it was.
abbrev pub Obeys : ℕ → StackContext → Bool × StackContext → Type 0
Obeys ret after (skip, out) =
    (op_of ret ≡ filter_drop → (skip ≡ true) × (out.r0 ≡ code_of ret) × (out.pc ≡ after.lr))
    × (op_of ret ≡ filter_redirect → (skip ≡ true) × (out.r0 ≡ after.r0) × (out.pc ≡ code_of ret))
    × (op_of ret ≢ filter_drop → op_of ret ≢ filter_redirect → (skip ≡ false) × (out.pc ≡ after.pc))

run_patch_here-Obeys :
    (run : ℕ → StackContext → ℕ × StackContext) (c : Context) (ctx : StackContext) (p : ℕ)
    → p ≢ 0
    → get_dynamic_patch_by_bpkt c ctx.pc ≡ some p
    → (r : Bool × StackContext) × (run_patch_here run c ctx ≡ some r)
      × Obeys (run p ctx).0 (run p ctx).1 r
unfolding run_patch_here
run_patch_here-Obeys run c ctx p n e =
    let some_patch : (p == 0) ≡ false = ground arith in
    let ret = (run p ctx).0 in
    let after = (run p ctx).1 in
    elim (Bool-cases (op_of ret == filter_drop)) [
      | inl drop ↦
          let o : op_of ret ≡ 1 = (==_iff _ _).0 drop in
          (
            (true, record after { r0 = code_of ret; pc = after.lr }),
            simp (e, some_patch, drop) refl,
            (λ h. (refl, refl, refl), λ h. absurd (omega arith), λ h k. absurd (h o)),
          )
      | inr other ↦ elim (Bool-cases (op_of ret == filter_redirect)) [
        | inl redirect ↦
            let o : op_of ret ≡ 2 = (==_iff _ _).0 redirect in
            (
              (true, record after { pc = code_of ret }),
              simp (e, some_patch, other, redirect) refl,
              (λ h. absurd (omega arith), λ h. (refl, refl, refl), λ h k. absurd (k o)),
            )
        | inr pass ↦ (
          (false, after),
          simp (e, some_patch, other, pass) refl,
          (λ h. absurd (ground arith), λ h. absurd (ground arith), λ h k. (refl, refl)),
        )
      ]
    ]

-- Once a new dynamic patch is registered in debug monitor mode, for an instruction in the code
-- region below 0x20000000, with memory for its objects, well-formed breakpoint registers and every
-- registered fixed patch in memory, the exception at the instruction's word address runs that
-- patch, and what it returns decides: drop returns to the caller of the interrupted function with
-- the low half of the result, redirect goes on at the address in the low half, and any other
-- operation lets the function go on where it was.
pub notify_new_patch-run_patch_here :
    (image : Image) (sl : Slack) (vm fresh desc : ℕ) (c : Context) (d : Desc)
    → IsReadable c
    → IsFpb c.fpb
    → c.fpb.active ≡ false
    → vm ≢ 0
    → fresh ≢ 0
    → desc ≢ 0
    → c.descs desc ≡ some d
    → d.kind ≡ PatchType.dynamic_patch_point
    → d.target < 2 ^ 29
    → (run : ℕ → StackContext → ℕ × StackContext) (ctx : StackContext)
    → ctx.pc ≡ word_aligned d.target
    → (g : Context) × (notify_new_patch image sl vm fresh c desc ≡ some g)
      × ((r : Bool × StackContext) × (run_patch_here run g ctx ≡ some r)
          × Obeys (run fresh ctx).0 (run fresh ctx).1 r)
notify_new_patch-run_patch_here image sl vm fresh desc c d readable unit monitor v f n known kind
      low run ctx at =
    let (g, notified, found, armed) =
      notify_new_patch-get image sl vm fresh desc c d readable unit monitor v f n known kind low in
    (
      g,
      notified,
      run_patch_here-Obeys run g ctx fresh f (ap (get_dynamic_patch_by_bpkt g) at ∙ found),
    )
