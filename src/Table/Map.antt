-- ===== src/Table/Map.antt =====
-- `Hashmap` of libebpf/src/ebpf_map.c. Keys are addresses of strings, which are read each time.
use rapid_patch_runtime_ae.Common.{
  ℕ, zero, suc, ◌+◌, ◌-◌, ◌%◌, List, Option, none, some, Bool, ◌==◌, ◌&&◌, if◌then◌else◌,
}
use rapid_patch_runtime_ae.Patch.Context.{◌>>=◌}
use rapid_patch_runtime_ae.Table.Array.{
  Cells, array_create, array_set, array_get, array_push, array_pop,
}
use rapid_patch_runtime_ae.Table.Hash.{str_hash_fn, str_equal_fn}

pub record HashmapNode : Type 0 where
  pub key : ℕ
  pub value : ℕ
  pub hash : ℕ

unfoldable pub hashmap_node_create : ℕ → ℕ → ℕ → HashmapNode
hashmap_node_create hash key val = record { key = key; value = val; hash = hash }

abbrev pub Bucket : Type 0
Bucket = Cells HashmapNode

-- The comparison and the hash are always those of `Hashmap_create`.
pub record Hashmap : Type 0 where
  pub buckets : Cells Bucket
  pub bucket_num : ℕ

unfoldable pub hashmap_create : Hashmap
hashmap_create = record { buckets = record (array_create 8) { end = 8 }; bucket_num = 8 }

-- A bucket of the map after the change of the object that its cell points to.
unfoldable pub with_bucket : Hashmap → ℕ → Bucket → Hashmap
with_bucket map i bucket = record map { buckets = array_set map.buckets i (some bucket) }

-- The value at an index, or NULL for -1.
unfoldable pub value_at : Bucket → Option ℕ → Option ℕ
value_at bucket none = some 0
value_at bucket (some i) = array_get bucket i >>= λ node. some node.value

-- The last node takes the place of the one that goes.
unfoldable pub removed_at : Bucket → ℕ → Bucket
removed_at bucket i =
    let (popped, tail) = array_pop bucket in
    if bucket.end - 1 == i then popped else array_set popped i tail

-- With `create` on: a bucket of ten cells where there was none.
abbrev pub bucket_or_new : Option Bucket → Bucket
bucket_or_new none = array_create 10
bucket_or_new (some bucket) = bucket

module _ (strings : ℕ → List ℕ) where
  unfoldable pub bucket_index : Hashmap → ℕ → ℕ
  bucket_index map key = str_hash_fn (strings key) % map.bucket_num

  unfoldable pub found_or_created : Hashmap → ℕ → Bucket
  found_or_created map key = bucket_or_new (array_get map.buckets (bucket_index map key))

  unfoldable pub hashmap_set : Hashmap → ℕ → ℕ → Option Hashmap
  hashmap_set map key value =
      array_push (found_or_created map key)
        (hashmap_node_create (str_hash_fn (strings key)) key value)
      >>= λ bucket. some (with_bucket map (bucket_index map key) bucket)

  unfoldable pub matches : ℕ → ℕ → HashmapNode → Bool
  matches hash key node = (node.hash == hash) && str_equal_fn (strings node.key) (strings key)

  -- The next `count` rounds of the loop from `i`; `none` is a read through NULL, `some none` is -1.
  unfoldable pub nodes_from : ℕ → ℕ → Bucket → ℕ → ℕ → Option (Option ℕ)
  nodes_from hash key bucket zero i = some none
  nodes_from hash key bucket (suc count) i =
      let later = nodes_from hash key bucket count (i + 1) in
      array_get bucket i >>= λ node. if matches hash key node then some (some i) else later

  unfoldable pub hashmap_get_node : ℕ → Bucket → ℕ → Option (Option ℕ)
  hashmap_get_node hash bucket key = nodes_from hash key bucket bucket.end 0

  -- NULL for the bucket is NULL for the value.
  unfoldable pub get_from : ℕ → Option Bucket → Option ℕ
  get_from key none = some 0
  get_from key (some bucket) =
      hashmap_get_node (str_hash_fn (strings key)) bucket key >>= λ i. value_at bucket i

  unfoldable pub hashmap_get : Hashmap → ℕ → Option ℕ
  hashmap_get map key = get_from key (array_get map.buckets (bucket_index map key))

  -- A key whose bucket does not exist is a read through NULL.
  unfoldable pub hashmap_delete : Hashmap → ℕ → Option (Hashmap × ℕ)
  hashmap_delete map key = array_get map.buckets (bucket_index map key) >>= λ bucket.
      hashmap_get_node (str_hash_fn (strings key)) bucket key >>= λ found. elim found [
        | none ↦ some (map, 0)
        | some i ↦ array_get bucket i >>= λ node.
            some (with_bucket map (bucket_index map key) (removed_at bucket i), node.value)
      ]
