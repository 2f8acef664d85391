-- ===== src/Jit/Distances.antt =====
-- The conditions and the distances of the jumps in the compiled code (libebpf/src/jit_thumb2.c).
use rapid_patch_runtime_ae.Common.{
  refl, [], ℕ, ◌+◌, ◌-◌, ◌%◌, ◌^◌, ◌≤◌, ◌<◌, ◌≡◌, ap, arith, Option, none, some, u32,
}
use mathlib.Core.Option.{some-injective}
use rapid_patch_runtime_ae.Vm.Inst.{Cond, cond_bits}
use rapid_patch_runtime_ae.Jit.Emit.Jumps.{emit_b_cond, emit_jump}
use rapid_patch_runtime_ae.Jit.Targets.{Reaches}

-- The condition of the branch after a comparison. `_emit_jump` makes no branch for the four others.
abbrev pub condition : Cond → Option ℕ
condition Cond.jne = some 0x1
condition Cond.jset = some 0x1
condition Cond.jeq = some 0x0
condition Cond.jgt = some 0x8
condition Cond.jge = some 0x2
condition Cond.jsgt = some 0xb
condition Cond.jsge = some 0xa
condition _ = none

same_condition :
    (n d cond code : ℕ)
    → some code ≡ some cond
    → code < 14
    → (emit_b_cond n d code ≡ emit_b_cond n d cond) × (cond < 14)
same_condition n d cond code e h =
    let same = some-injective code cond e in
    (ap (λ (c : ℕ). emit_b_cond n d c) same, omega (arith, same))

pub emit_jump-condition :
    (n d : ℕ) (c : Cond) (cond : ℕ)
    → condition c ≡ some cond
    → (emit_jump n d (cond_bits c) ≡ emit_b_cond n d cond) × (cond < 14)
unfolding emit_jump
emit_jump-condition n d Cond.jne cond e = same_condition n d cond 0x1 e (omega arith)
emit_jump-condition n d Cond.jset cond e = same_condition n d cond 0x1 e (omega arith)
emit_jump-condition n d Cond.jeq cond e = same_condition n d cond 0x0 e (omega arith)
emit_jump-condition n d Cond.jgt cond e = same_condition n d cond 0x8 e (omega arith)
emit_jump-condition n d Cond.jge cond e = same_condition n d cond 0x2 e (omega arith)
emit_jump-condition n d Cond.jsgt cond e = same_condition n d cond 0xb e (omega arith)
emit_jump-condition n d Cond.jsge cond e = same_condition n d cond 0xa e (omega arith)
emit_jump-condition n d Cond.jlt cond e = absurd (cc)
emit_jump-condition n d Cond.jle cond e = absurd (cc)
emit_jump-condition n d Cond.jslt cond e = absurd (cc)
emit_jump-condition n d Cond.jsle cond e = absurd (cc)

-- The distance from a branch at `at` to `to`.
abbrev pub distance : ℕ → ℕ → ℕ
distance at to = u32 (to + 2 ^ 33 - at - 4)

pub distance-Reaches :
    (bound at to : ℕ)
    → at ≤ bound
    → to ≤ bound
    → at % 2 ≡ 0
    → to % 2 ≡ 0
    → bound ≤ 2040
    → Reaches 11 (distance at to)
      × (bound ≤ 250 → Reaches 8 (distance at to))
      × (u32 (at + distance at to + 4) ≡ to)
distance-Reaches bound at to ha ht ea et b =
    ((omega arith, ground arith), λ s. (omega arith, ground arith), omega arith)

-- After the comparison of a jump on `<`, `<=`, and their signed forms, no branch is emitted: the
-- compiled program falls through.
pub emit_jump-none : (n d : ℕ) (c : Cond) → condition c ≡ none → emit_jump n d (cond_bits c) ≡ []
unfolding emit_jump
emit_jump-none n d Cond.jlt e = refl
emit_jump-none n d Cond.jle e = refl
emit_jump-none n d Cond.jslt e = refl
emit_jump-none n d Cond.jsle e = refl
emit_jump-none n d Cond.jne e = absurd (cc)
emit_jump-none n d Cond.jset e = absurd (cc)
emit_jump-none n d Cond.jeq e = absurd (cc)
emit_jump-none n d Cond.jgt e = absurd (cc)
emit_jump-none n d Cond.jge e = absurd (cc)
emit_jump-none n d Cond.jsgt e = absurd (cc)
emit_jump-none n d Cond.jsge e = absurd (cc)
