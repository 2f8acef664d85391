-- ===== src/Jit/Emit/Registers.antt =====
-- libebpf/src/jit_thumb2.c: where the eBPF registers live.
use rapid_patch_runtime_ae.Common.{ℕ, zero, suc, ◌+◌, ◌*◌, ◌/◌, ◌%◌, ◌^◌, List, [], ◌∷◌, Bool, ◌&&◌}
use rapid_patch_runtime_ae.Vm.Inst.{Size}
use rapid_patch_runtime_ae.Jit.CInt.{is_negative, neg, s_le}
use rapid_patch_runtime_ae.Jit.Encode.Memory.{RegPair}

-- The half-words of the code, as `emit2` appends them.
abbrev pub Code : Type 0
Code = List ℕ

unfoldable pub emit2 : ℕ → Code
emit2 x = x % 2 ^ 16 ∷ []

-- The upper half-word goes first.
unfoldable pub emit4 : ℕ → Code
emit4 x = x / 2 ^ 16 % 2 ^ 16 ∷ x % 2 ^ 16 ∷ []

-- `ARM_FP`, `ARM_IP`, `ARM_SP` and `ARM_LR`.
abbrev pub arm_fp : ℕ
arm_fp = 11

abbrev pub arm_ip : ℕ
arm_ip = 12

abbrev pub arm_sp : ℕ
arm_sp = 13

abbrev pub arm_lr : ℕ
arm_lr = 14

-- The number of places in the scratch space, and its bytes.
abbrev pub scratch_size : ℕ
scratch_size = 20 * 4

-- `STACK_OFFSET`, from the stack enumeration's place.
unfoldable pub stack_offset : ℕ → ℕ
stack_offset k = neg (4 + k * 4)

abbrev pub stacked_at : ℕ → RegPair
stacked_at k = record { hi = stack_offset k; lo = stack_offset (k + 1) }

abbrev pub tmp_reg_1 : RegPair
tmp_reg_1 = record { hi = 7; lo = 6 }

abbrev pub tmp_reg_2 : RegPair
tmp_reg_2 = record { hi = 9; lo = 8 }

unfoldable pub bpf2a32_rows : List RegPair
bpf2a32_rows =
    record { hi = 1; lo = 0 }
    ∷ record { hi = 3; lo = 2 }
    ∷ stacked_at 0
    ∷ stacked_at 2
    ∷ stacked_at 4
    ∷ stacked_at 6
    ∷ record { hi = 5; lo = 4 }
    ∷ stacked_at 8
    ∷ stacked_at 10
    ∷ stacked_at 12
    ∷ stacked_at 14
    ∷ stacked_at 18
    ∷ tmp_reg_1
    ∷ tmp_reg_2
    ∷ stacked_at 16
    ∷ []

abbrev pub row : RegPair → List RegPair → ℕ → RegPair
row beyond [] i = beyond
row beyond (r ∷ rest) zero = r
row beyond (r ∷ rest) (suc i) = row beyond rest i

-- The table has 15 rows; `beyond` is what follows it in memory, which register 15 would name.
unfoldable pub bpf2a32 : RegPair → ℕ → RegPair
unfolding bpf2a32_rows
bpf2a32 beyond reg = row beyond bpf2a32_rows reg

abbrev pub is_stacked : ℕ → Bool
is_stacked reg = is_negative reg

-- The largest offset that the instructions are taken to hold.
abbrev pub off_max : Size → ℕ
off_max Size.b = 0xfff
off_max Size.w = 0xfff
off_max Size.h = 0xff
off_max Size.dw = 0xffb

unfoldable pub is_ldst_imm : ℕ → Size → Bool
is_ldst_imm off size = s_le (neg (off_max size)) off && s_le off (off_max size)
