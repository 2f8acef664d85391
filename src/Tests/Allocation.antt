-- ===== src/Tests/Allocation.antt =====
-- The allocator over a concrete system.
use rapid_patch_runtime_ae.Common.{
  ℕ, ◌+◌, ◌-◌, ◌≡◌, ◌≢◌, refl, arith, List, [], ◌∷◌, ◌++◌, some, none, ◌==◌, if◌then◌else◌, drop,
  replicate, Bool-cases, inl, inr, u32,
}
use rapid_patch_runtime_ae.Patch.Context.{assign, deref}
use rapid_patch_runtime_ae.Allocator.{
  Os, Allocator, Grants, FreesOnly, ebpf_realloc, ebpf_realloc-grows,
}

-- Every request is granted at one address.
abbrev os : Os
os = record {
  malloc = λ size blocks. (assign blocks 0x900 (replicate size 0xa5), 0x900);
  calloc = λ nelem size blocks. (blocks, 0);
  free = λ p blocks. λ q. if q == p then none else blocks q;
}

abbrev start : Allocator
start = record { mem_size = 20; blocks = λ p. if p == 0x100 then some (1 ∷ 2 ∷ 3 ∷ []) else none }

os-FreesOnly : FreesOnly os
os-FreesOnly q p blocks h = ground arith

os-others :
    (q : ℕ) (bs : List ℕ)
    → deref start.blocks q ≡ some bs
    → (q ≢ 0x900) × (deref (os.malloc 5 start.blocks).0 q ≡ some bs)
os-others q bs e = elim (Bool-cases (q == 0x900)) [
  | inl there ↦ let same : q ≡ 0x900 = ground arith in let x = rw same at e in absurd (cc)
  | inr other ↦ (λ h. ground arith, rw other e)
]

os-Grants : Grants os 5 start.blocks 0x900 (replicate 5 0xa5)
os-Grants = record {
  granted = refl;
  not_null = λ e. omega arith;
  there = refl;
  bytes = refl;
  others = os-others;
}

ebpf_realloc-grows_example :
    (t : Allocator) × (ebpf_realloc os 0x100 3 5 start ≡ some (t, 0x900))
    × (deref t.blocks 0x900 ≡ some ((1 ∷ 2 ∷ 3 ∷ []) ++ drop 3 (replicate 5 0xa5)))
    × (t.mem_size ≡ u32 (20 + (5 - 3) + 5))
ebpf_realloc-grows_example =
    ebpf_realloc-grows os 0x100 3 5 0x900 start (1 ∷ 2 ∷ 3 ∷ []) (replicate 5 0xa5) os-FreesOnly
      os-Grants refl refl (omega arith) (omega arith) (omega arith)
