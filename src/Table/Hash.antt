-- ===== src/Table/Hash.antt =====
-- The hash and the comparison of strings of libebpf/src/ebpf_map.c.
use rapid_patch_runtime_ae.Common.{
  ℕ, ◌+◌, ◌*◌, ◌/◌, ◌^◌, List, [], ◌∷◌, Bool, true, false, ◌==◌, ◌&&◌, bit_xor, u32,
}

-- One round of the loop. A `char` is unsigned, as on Arm.
unfoldable pub hash_char : ℕ → ℕ → ℕ
hash_char hash c =
    let added = u32 (hash + c) in
    let mixed = u32 (added + u32 (added * 2 ^ 10)) in bit_xor mixed (mixed / 2 ^ 6)

unfoldable pub hash_chars : ℕ → List ℕ → ℕ
hash_chars hash [] = hash
hash_chars hash (c ∷ skey) = hash_chars (hash_char hash c) skey

unfoldable pub str_hash_fn : List ℕ → ℕ
str_hash_fn skey =
    let hash = hash_chars 0 skey in
    let tripled = u32 (hash + u32 (hash * 2 ^ 3)) in
    let mixed = bit_xor tripled (tripled / 2 ^ 11) in u32 (mixed + u32 (mixed * 2 ^ 15))

unfoldable pub str_equal_fn : List ℕ → List ℕ → Bool
str_equal_fn [] [] = true
str_equal_fn [] (y ∷ b) = false
str_equal_fn (x ∷ a) [] = false
str_equal_fn (x ∷ a) (y ∷ b) = (x == y) && str_equal_fn a b
