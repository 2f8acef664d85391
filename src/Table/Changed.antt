-- ===== src/Table/Changed.antt =====
-- The `Hashmap` of libebpf/src/ebpf_map.c with a changed bucket.
use native.Mathlib.Nat.{mod-lt}
use rapid_patch_runtime_ae.Common.{
  ℕ, ◌<◌, ◌≡◌, ◌≢◌, ◌∙◌, refl, sym, ap, arith, List, Option, none, some, true, false, ltb, leb,
  length, get_or-set_self, get_or-set_ne, Bool-cases, inl, inr,
}
use rapid_patch_runtime_ae.Patch.Context.{◌>>=◌}
use rapid_patch_runtime_ae.Table.Array.{Cells, array_create, array_set, array_get}
use rapid_patch_runtime_ae.Table.Hash.{str_hash_fn}
use rapid_patch_runtime_ae.Table.Map.{
  HashmapNode, hashmap_node_create, Bucket, Hashmap, bucket_index, found_or_created, with_bucket,
  hashmap_set, nodes_from, hashmap_get_node, value_at, hashmap_get, bucket_or_new, get_from,
}
use rapid_patch_runtime_ae.Table.Search.{HasRoom, pushed, array_push-room}

-- The map has as many buckets as it says, each with its cells.
pub record IsHashmap (map : Hashmap) : Type 0 where
  pub cells : length map.buckets.contents ≡ map.buckets.max
  pub number : map.bucket_num ≡ map.buckets.max
  pub some_bucket : 0 < map.bucket_num

array_get-set_self :
    {A : Type 0} (arr : Cells A) (i : ℕ) (x : A)
    → length arr.contents ≡ arr.max
    → i < arr.max
    → array_get (array_set arr i (some x)) i ≡ some x
unfolding array_get array_set
array_get-set_self arr i x cells less =
    let inside : leb arr.max i ≡ false = ground arith in
    let below : ltb i arr.max ≡ true = ground arith in
    rw (inside, below, get_or-set_self arr.contents i (some x) none (omega (arith, cells))) refl

array_get-set_ne :
    {A : Type 0} (arr : Cells A) (i j : ℕ) (x : Option A)
    → i ≢ j
    → array_get (array_set arr i x) j ≡ array_get arr j
unfolding array_get array_set
array_get-set_ne arr i j x ne = elim (Bool-cases (leb arr.max i)) [
  | inl out ↦ rw out refl
  | inr inside ↦ rw (inside, get_or-set_ne arr.contents i j x none ne) refl
]

module _ (strings : ℕ → List ℕ) (map : Hashmap) (key v : ℕ) (good : IsHashmap map)
    (room : HasRoom (found_or_created strings map key)) where
  abbrev pub added : HashmapNode
  added = hashmap_node_create (str_hash_fn (strings key)) key v

  abbrev pub changed : Hashmap
  changed =
      with_bucket map (bucket_index strings map key)
        (pushed (found_or_created strings map key) added)

  pub hashmap_set-changed : hashmap_set strings map key v ≡ some changed
  unfolding hashmap_set
  hashmap_set-changed = rw (array_push-room (found_or_created strings map key) added room) refl

  bucket_index-lt : bucket_index strings map key < map.buckets.max
  unfolding bucket_index
  bucket_index-lt =
      let below = mod-lt (str_hash_fn (strings key)) good.some_bucket in
      omega (arith, good.number, below)

  index_kept : (k : ℕ) → bucket_index strings changed k ≡ bucket_index strings map k
  unfolding bucket_index with_bucket
  index_kept k = refl

  pub same_bucket :
      (k : ℕ)
      → bucket_index strings map k ≡ bucket_index strings map key
      → found_or_created strings changed k ≡ pushed (found_or_created strings map key) added
  unfolding found_or_created with_bucket
  same_bucket k e = ap bucket_or_new (
      ap (array_get changed.buckets) (index_kept k ∙ e)
      ∙ array_get-set_self map.buckets (bucket_index strings map key)
          (pushed (found_or_created strings map key) added) good.cells bucket_index-lt)

  pub other_bucket :
      (k : ℕ)
      → bucket_index strings map k ≢ bucket_index strings map key
      → found_or_created strings changed k ≡ found_or_created strings map k
  unfolding found_or_created with_bucket
  other_bucket k ne = ap bucket_or_new (
      ap (array_get changed.buckets) (index_kept k)
      ∙ array_get-set_ne map.buckets (bucket_index strings map key) (bucket_index strings map k)
          (some (pushed (found_or_created strings map key) added)) (λ e. ne (sym e)))

module _ (strings : ℕ → List ℕ) where
  -- What the search for a key ends with, where a bucket that does not exist has no nodes.
  abbrev pub search : Hashmap → ℕ → Option (Option ℕ)
  search map k =
      hashmap_get_node strings (str_hash_fn (strings k)) (found_or_created strings map k) k

  get_from-search :
      (k : ℕ) (found : Option Bucket)
      → get_from strings k found ≡ (
          hashmap_get_node strings (str_hash_fn (strings k)) (bucket_or_new found) k
          >>= value_at (bucket_or_new found))
  unfolding get_from hashmap_get_node nodes_from array_create value_at
  get_from-search k none = refl
  get_from-search k (some bucket) = refl

  pub hashmap_get-search :
      (map : Hashmap) (k : ℕ)
      → hashmap_get strings map k ≡ (search map k >>= value_at (found_or_created strings map k))
  unfolding hashmap_get found_or_created
  hashmap_get-search map k = get_from-search k (array_get map.buckets (bucket_index strings map k))
