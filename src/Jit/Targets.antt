-- ===== src/Jit/Targets.antt =====
-- Where the branches that libebpf/src/jit_thumb2.c emits lead, after the encodings T1 to T3 of `B`
-- in the ARMv7-M manual. This is the description that the emitted branches are held against.
use rapid_patch_runtime_ae.Common.{
  ℕ, ◌+◌, ◌-◌, ◌*◌, ◌/◌, ◌%◌, ◌^◌, ◌≤◌, ◌<◌, ◌≡◌, ◌⊎◌, ltb, [], ◌∷◌, ◌==◌, ◌&&◌, Option, none, some,
  if◌then◌else◌, u32,
}
use rapid_patch_runtime_ae.Jit.Emit.Registers.{Code}

-- A number of `w` bits that stands for an offset in half-words, as a distance of 32 bits.
abbrev pub extended : ℕ → ℕ → ℕ
extended w imm = if ltb imm (2 ^ (w - 1)) then imm * 2 else u32 (imm * 2 + 2 ^ 32 - 2 ^ w * 2)

-- The condition of a branch that is always taken.
abbrev pub always : ℕ
always = 14

-- Where the fields of the branch at `at` lead: the program counter is read four bytes ahead.
abbrev pub fields_t1 : ℕ → ℕ → ℕ
fields_t1 at inst = u32 (at + 4 + extended 8 (inst % 2 ^ 8))

abbrev pub fields_t2 : ℕ → ℕ → ℕ
fields_t2 at inst = u32 (at + 4 + extended 11 (inst % 2 ^ 11))

-- `S:J2:J1:imm6:imm11`, extended.
abbrev pub fields_t3 : ℕ → ℕ → ℕ
fields_t3 at inst =
    let s = inst / 2 ^ 26 % 2 in
    let j1 = inst / 2 ^ 13 % 2 in
    let j2 = inst / 2 ^ 11 % 2 in
    let imm =
      s * 2 ^ 19 + j2 * 2 ^ 18 + j1 * 2 ^ 17 + inst / 2 ^ 16 % 2 ^ 6 * 2 ^ 11 + inst % 2 ^ 11 in
    u32 (at + 4 + extended 20 imm)

-- A signed distance of less than `2 ^ w` bytes either way, to an even place.
abbrev pub Reaches : ℕ → ℕ → Type 0
Reaches w d = (d % 2 ≡ 0) × ((d < 2 ^ w) ⊎ ((2 ^ 32 ≤ d + 2 ^ w) × (d < 2 ^ 32)))

-- The condition and the target of an instruction, if its fixed bits are those of a branch: `1101`
-- and a condition below 14, `11100`, and `11110` with `10.0` in the lower half-word.
abbrev pub target_t1 : ℕ → ℕ → Option (ℕ × ℕ)
target_t1 at inst =
    if inst / 2 ^ 12 == 13 && ltb (inst / 2 ^ 8 % 2 ^ 4) 14
    then some (inst / 2 ^ 8 % 2 ^ 4, fields_t1 at inst)
    else none

abbrev pub target_t2 : ℕ → ℕ → Option (ℕ × ℕ)
target_t2 at inst = if inst / 2 ^ 11 == 28 then some (always, fields_t2 at inst) else none

abbrev pub target_t3 : ℕ → ℕ → Option (ℕ × ℕ)
target_t3 at inst =
    if (inst / 2 ^ 27 == 30 && inst / 2 ^ 14 % 2 ^ 2 == 2)
      && (inst / 2 ^ 12 % 2 == 0 && ltb (inst / 2 ^ 22 % 2 ^ 4) 14)
    then some (inst / 2 ^ 22 % 2 ^ 4, fields_t3 at inst)
    else none

-- The branch that the half-words make, in whichever of the three encodings they are.
abbrev pub branch_target : ℕ → Code → Option (ℕ × ℕ)
branch_target at [] = none
branch_target at (h ∷ []) = if h / 2 ^ 11 == 28 then target_t2 at h else target_t1 at h
branch_target at (h ∷ l ∷ []) = target_t3 at (h * 2 ^ 16 + l)
branch_target at (h ∷ l ∷ m ∷ rest) = none
