-- ===== src/Tests/Table.antt =====
-- The hash map of strings, with two addresses of one string.
use rapid_patch_runtime_ae.Common.{
  ℕ, ◌≡◌, refl, arith, List, [], ◌∷◌, none, some, ◌==◌, if◌then◌else◌,
}
use rapid_patch_runtime_ae.Table.Map.{
  Hashmap, hashmap_create, found_or_created, bucket_index, hashmap_set, hashmap_get,
  hashmap_get_node, nodes_from,
}
use rapid_patch_runtime_ae.Table.Search.{HasRoom}
use rapid_patch_runtime_ae.Table.Changed.{IsHashmap, search}
use rapid_patch_runtime_ae.Table.SetGet.{hashmap_set-get}
use rapid_patch_runtime_ae.Table.Array.{array_create, array_get}
use rapid_patch_runtime_ae.Table.Hash.{hash_char, hash_chars, str_hash_fn, str_equal_fn}

-- "key1" stands at 0x10 and at 0x20.
abbrev strings : ℕ → List ℕ
strings address =
    if (address == 0x10)
    then 107 ∷ 101 ∷ 121 ∷ 49 ∷ []
    else if (address == 0x20)
    then 107 ∷ 101 ∷ 121 ∷ 49 ∷ []
    else []

created-IsHashmap : IsHashmap hashmap_create
unfolding hashmap_create array_create
created-IsHashmap = record { cells = refl; number = refl; some_bucket = omega arith }

created-HasRoom : HasRoom (found_or_created strings hashmap_create 0x10)
unfolding hashmap_create array_create found_or_created bucket_index array_get str_hash_fn hash_chars
    hash_char
created-HasRoom = (refl, omega arith)

nothing_found : search strings hashmap_create 0x20 ≡ some none
unfolding hashmap_create array_create found_or_created bucket_index array_get hashmap_get_node
    nodes_from str_hash_fn hash_chars hash_char
nothing_found = refl

hashmap_set-get_example :
    (after : Hashmap) × (hashmap_set strings hashmap_create 0x10 7 ≡ some after)
    × (hashmap_get strings after 0x20 ≡ some 7)
unfolding str_equal_fn
hashmap_set-get_example =
    hashmap_set-get strings hashmap_create 0x10 7 created-IsHashmap created-HasRoom 0x20 none
      nothing_found
