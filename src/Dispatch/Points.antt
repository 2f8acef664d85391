-- ===== src/Dispatch/Points.antt =====
-- The dispatch at a patch point, in hotpatch/src/cortex-m4_fbp.c for dynamic patches and in
-- hotpatch/src/fixed_patch_points.c for fixed ones, as built without DEBUG. `none` is undefined.
use rapid_patch_runtime_ae.Common.{
  ℕ, ◌+◌, ◌-◌, ◌/◌, ◌%◌, ◌^◌, Option, none, some, Bool, true, false, ◌==◌, if◌then◌else◌, u32,
  get_elem?,
}
use rapid_patch_runtime_ae.Point.Address.{even}
use rapid_patch_runtime_ae.Point.Comparators.{Image, fpb_disable_cur_inst}
use rapid_patch_runtime_ae.Patch.Context.{Context, ◌>>=◌}
use rapid_patch_runtime_ae.Patch.Lookup.{get_dynamic_patch_by_bpkt, get_fixed_patch_by_lr}

abbrev pub filter_pass : ℕ
filter_pass = 0

abbrev pub filter_drop : ℕ
filter_drop = 1

abbrev pub filter_redirect : ℕ
filter_redirect = 2

abbrev pub fixed_op_pass : ℕ
fixed_op_pass = 0x00010000

-- `stack_context`: the registers that the exception saved.
pub record StackContext : Type 0 where
  pub r0 : ℕ
  pub r1 : ℕ
  pub r2 : ℕ
  pub r3 : ℕ
  pub r12 : ℕ
  pub lr : ℕ
  pub pc : ℕ
  pub xpsr : ℕ

-- `fixed_stack_frame`.
pub record FixedFrame : Type 0 where
  pub r0_1 : ℕ
  pub r1_1 : ℕ
  pub r2_1 : ℕ
  pub r3 : ℕ
  pub lr : ℕ

-- A 64-bit result of a filter: the operation in its upper half, the code in its lower.
abbrev pub op_of : ℕ → ℕ
op_of ret = u32 (ret / 2 ^ 32)

abbrev pub code_of : ℕ → ℕ
code_of ret = ret % 2 ^ 32

-- `run` is `run_ebpf_filter`, by the interpreter or by compiled code: it takes the patch and the
-- frame, which the program may change through its pointer, and gives the result and the frame.
module _ (run : ℕ → StackContext → ℕ × StackContext) where
  -- `run_patch_here`: whether the exception is over, and the frame to return with.
  unfoldable pub run_patch_here : Context → StackContext → Option (Bool × StackContext)
  run_patch_here c ctx = get_dynamic_patch_by_bpkt c ctx.pc >>= λ patch.
      if patch == 0
      then some (false, ctx)
      else (let ret = (run patch ctx).0 in
          let after = (run patch ctx).1 in
          if op_of ret == filter_drop
          then some (true, record after { r0 = code_of ret; pc = after.lr })
          else if op_of ret == filter_redirect
          then some (true, record after { pc = code_of ret })
          else some (false, after))

  -- `leave_fpb_bpkt`: the registry with its breakpoint unit, the frame, and the address to go on at.
  unfoldable pub leave_fpb_bpkt :
      Image → ℕ → Context → StackContext → ℕ → Option (Context × (StackContext × ℕ))
  unfolding fpb_disable_cur_inst get_dynamic_patch_by_bpkt
  leave_fpb_bpkt image fuel c ctx bpkt_idx = get_elem? c.fpb.comp bpkt_idx >>= λ cell.
      get_dynamic_patch_by_bpkt c (even cell) >>= λ patch.
      if patch == 0
      then some (c, (ctx, ctx.lr))
      else (let ret = (run patch ctx).0 in
          let after = (run patch ctx).1 in
          if op_of ret == filter_pass
          then (fpb_disable_cur_inst image fuel c.fpb bpkt_idx >>= λ fpb.
              get_elem? fpb.comp bpkt_idx >>= λ back. some (record c { fpb = fpb }, (after, back)))
          else if op_of ret == filter_drop
          then some (c, (record after { r0 = code_of ret }, after.lr))
          else if op_of ret == filter_redirect
          then some (c, (after, code_of ret))
          else some (c, (after, after.lr)))

-- `dispatch_fixed_patch_point`: the frame, and the word that is written through an address, if any:
-- `FILTER_REDIRECT` writes to where the saved `lr` points, instead of changing it.
module _ (run : ℕ → FixedFrame → ℕ × FixedFrame) where
  unfoldable pub dispatch_fixed_patch_point :
      Context → FixedFrame → Option (FixedFrame × Option (ℕ × ℕ))
  dispatch_fixed_patch_point c args =
      get_fixed_patch_by_lr c (u32 (even args.lr + 2 ^ 32 - 4)) >>= λ patch.
      if patch == 0
      then some (record args { r0_1 = fixed_op_pass }, none)
      else (let ret = (run patch args).0 in
          let after = (run patch args).1 in
          if op_of ret == filter_drop
          then some (record after { r0_1 = 0 }, none)
          else if op_of ret == filter_redirect
          then some (after, some (after.lr, code_of ret))
          else some (record after { r0_1 = fixed_op_pass }, none))
