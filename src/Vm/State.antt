-- ===== src/Vm/State.antt =====
-- The state of `ebpf_vm_exec` in libebpf/src/ebpf_vm.c, and the ways in which a step ends.
use mathlib.Core.Path.{subst}
use rapid_patch_runtime_ae.Common.{
  ℕ, ◌^◌, ◌<◌, ◌≡◌, refl, ◌⊎◌, inl, inr, List, Option, none, some, Bool, u64, get_elem?, set,
  length,
}
use rapid_patch_runtime_ae.Vm.Inst.{Inst}
use rapid_patch_runtime_ae.Vm.Memory.{Memory}

-- How the code between two rounds of the loop leaves it: `return reg[0]`; `return -1` after a
-- failed check; or an operation that C leaves undefined, such as a division by zero or an access
-- outside an array.
pub data Stop : Type 0 where
  returned : ℕ → Stop
  rejected undefined : Stop

pub data Result {ℓ} (A : Type ℓ) : Type ℓ where
  ok : A → Result A
  stop : Stop → Result A

-- How a run ends. `iter_limit` is the return after the instruction budget; `out_of_fuel` belongs
-- to the model's loop alone.
pub data Outcome : Type 0 where
  ended : Stop → Outcome
  iter_limit out_of_fuel : Outcome

infixl 5 ◌>>=◌ ◌>>◌
abbrev pub ◌>>=◌ {ℓ κ} : {A : Type ℓ} {B : Type κ} → Result A → (A → Result B) → Result B
ok a >>= f = f a
stop o >>= f = stop o

abbrev pub ◌>>◌ {ℓ} : {B : Type ℓ} → Result (Unit {0}) → Result B → Result B
m >> k = m >>= λ _. k

abbrev pub require : Bool → Stop → Result (Unit {0})
require Bool.true o = ok tt
require Bool.false o = stop o

-- What is absent is undefined behaviour.
abbrev pub present {ℓ} : {A : Type ℓ} → Option A → Result A
present none = stop undefined
present (some a) = ok a

pub Result-cases {ℓ} :
    {A : Type ℓ} (r : Result A) → ((a : A) × (r ≡ ok a)) ⊎ ((o : Stop) × (r ≡ stop o))
Result-cases (ok a) = inl (a, refl)
Result-cases (stop o) = inr (o, refl)

-- `P` holds of what a successful computation yields.
abbrev pub Ensures {ℓ} : {A : Type ℓ} → (A → Type 0) → Result A → Type 0
Ensures P (ok a) = P a
Ensures P (stop o) = Unit

pub Ensures-bind {ℓ κ} :
    {A : Type ℓ} {B : Type κ} (P : B → Type 0) (m : Result A) (f : A → Result B)
    → ((a : A) → m ≡ ok a → Ensures P (f a))
    → Ensures P (m >>= f)
Ensures-bind P (ok a) f h = h a refl
Ensures-bind P (stop o) f h = tt

pub Ensures-ok {ℓ} :
    {A : Type ℓ} (P : A → Type 0) (r : Result A) {a : A} → Ensures P r → r ≡ ok a → P a
Ensures-ok P (ok b) h e = subst P (cc) h
Ensures-ok P (stop o) h e = absurd (cc)

-- An `ext_func`: five arguments and the memory that it may change.
abbrev pub Helper : Type 0
Helper = ℕ → ℕ → ℕ → ℕ → ℕ → Memory → ℕ × Memory

-- `struct ebpf_vm`, without the fields of the just-in-time compiler. `ext_funcs` is the table of
-- the shared `helper_func`; an empty slot is a null pointer.
pub record Vm : Type 0 where
  pub insts : List Inst
  pub bounds_check_enabled : Bool
  pub ext_funcs : List (Option Helper)

-- The arguments `mem` and `mem_len`, and the address of the local array `stack`.
pub record Frame : Type 0 where
  pub mem : ℕ
  pub mem_len : ℕ
  pub stack : ℕ

-- The locals that change, and the memory.
pub record State : Type 0 where
  pub regs : List ℕ
  pub pc : ℕ
  pub memory : Memory

abbrev pub max_bpf_ext_reg : ℕ
max_bpf_ext_reg = 12

-- `reg[i]` read and written; `dst` and `src` have four bits and the array has twelve cells.
abbrev pub get_reg : State → ℕ → Result ℕ
get_reg s i = present (get_elem? s.regs i)

abbrev pub set_reg : State → ℕ → ℕ → Result State
set_reg s i v = get_reg s i >>= λ _. ok (record s { regs = set s.regs i (u64 v) })

-- Registers are the twelve 64-bit words of the array and `pc` is a `u16`.
pub record IsState (s : State) : Type 0 where
  pub reg_count : length s.regs ≡ max_bpf_ext_reg
  pub reg_width : (i v : ℕ) → get_elem? s.regs i ≡ some v → v < 2 ^ 64
  pub pc_width : s.pc < 2 ^ 16
