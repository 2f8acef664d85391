-- ===== src/Jit/Branches.antt =====
-- The branches of libebpf/src/jit_thumb2.h lead where they should.
use rapid_patch_runtime_ae.Common.{
  ℕ, ◌+◌, ◌*◌, ◌/◌, ◌%◌, ◌^◌, ◌<◌, ◌≡◌, arith, ap, inl, inr, true, false, some, ltb, ◌==◌, u32,
}
use rapid_patch_runtime_ae.Common.Bits.{bit_and_mask, bit_or_fields}
use rapid_patch_runtime_ae.Jit.Emit.Registers.{emit2, emit4}
use rapid_patch_runtime_ae.Jit.Encode.Branch.{b_t1, b_t2, bw_t3}
use rapid_patch_runtime_ae.Jit.Targets.{fields_t1, fields_t2, always, branch_target, Reaches}
use rapid_patch_runtime_ae.Jit.WideBranch.{bw_t3_as_sum, bw_t3-target, upper_of-lt}

b_t2_as_sum : (d : ℕ) → b_t2 d ≡ 0xe000 + d / 2 % 2 ^ 11
unfolding b_t2
b_t2_as_sum d =
    rw (bit_and_mask 11 (d / 2))
      (ground (arith, bit_or_fields 11 28 (d / 2 % 2 ^ 11) (omega arith)))

b_t2-target : (at d : ℕ) → Reaches 11 d → fields_t2 at (b_t2 d) ≡ u32 (at + d + 4)
b_t2-target at d (even, inl h) = rw (b_t2_as_sum d) (ground arith)
b_t2-target at d (even, inr h) = rw (b_t2_as_sum d) (ground arith)

b_t1_as_sum : (d cond : ℕ) → cond < 14 → b_t1 d cond ≡ (208 + cond) * 2 ^ 8 + d / 2 % 2 ^ 8
unfolding b_t1
b_t1_as_sum d cond h = rw (bit_and_mask 8 (d / 2)) (
    ground (
      arith,
      bit_or_fields 12 13 (cond * 2 ^ 8) (omega arith),
      bit_or_fields 8 (208 + cond) (d / 2 % 2 ^ 8) (omega arith),
    ))

b_t1-target :
    (at d cond : ℕ) → cond < 14 → Reaches 8 d → fields_t1 at (b_t1 d cond) ≡ u32 (at + d + 4)
b_t1-target at d cond c (even, inl h) = rw (b_t1_as_sum d cond c) (ground arith)
b_t1-target at d cond c (even, inr h) = rw (b_t1_as_sum d cond c) (ground arith)

-- The same, of the half-words that the emitters hand out.
pub emit2-b_t2 :
    (at d : ℕ) → Reaches 11 d → branch_target at (emit2 (b_t2 d)) ≡ some (always, u32 (at + d + 4))
unfolding emit2
emit2-b_t2 at d near =
    let sum = b_t2_as_sum d in
    let whole : b_t2 d % 2 ^ 16 ≡ b_t2 d = omega (arith, sum) in
    let kind : b_t2 d / 2 ^ 11 ≡ 28 = omega (arith, sum) in
    rw (whole, kind) (ap (λ (t : ℕ). some (always, t)) (b_t2-target at d near))

pub emit2-b_t1 :
    (at d cond : ℕ)
    → cond < 14
    → Reaches 8 d
    → branch_target at (emit2 (b_t1 d cond)) ≡ some (cond, u32 (at + d + 4))
unfolding emit2
emit2-b_t1 at d cond c near =
    let sum = b_t1_as_sum d cond c in
    let whole : b_t1 d cond % 2 ^ 16 ≡ b_t1 d cond = omega (arith, sum) in
    let other : (b_t1 d cond / 2 ^ 11 == 28) ≡ false = ground (arith, sum) in
    let kind : b_t1 d cond / 2 ^ 12 ≡ 13 = omega (arith, sum) in
    let chosen : b_t1 d cond / 2 ^ 8 % 2 ^ 4 ≡ cond = omega (arith, sum) in
    let below : ltb cond 14 ≡ true = ground arith in
    rw (whole, other, kind, chosen, below)
      (ap (λ (t : ℕ). some (cond, t)) (b_t1-target at d cond c near))

pub emit4-bw_t3 :
    (at d cond : ℕ)
    → cond < 14
    → Reaches 20 d
    → branch_target at (emit4 (bw_t3 d cond)) ≡ some (cond, u32 (at + d + 4))
unfolding emit4
emit4-bw_t3 at d cond c near =
    let sum = bw_t3_as_sum d cond c in
    let upper = upper_of-lt d cond c in
    let whole : bw_t3 d cond / 2 ^ 16 % 2 ^ 16 * 2 ^ 16 + bw_t3 d cond % 2 ^ 16 ≡ bw_t3 d cond =
      omega (arith, sum, upper) in
    rw whole (bw_t3-target at d cond c near)
