-- ===== src/Table/SetGet.antt =====
-- Insertion into the `Hashmap` of libebpf/src/ebpf_map.c, and the next lookup.
use rapid_patch_runtime_ae.Common.{
  ℕ, suc, ◌+◌, ◌%◌, ◌<◌, ◌≡◌, ◌≢◌, ◌∙◌, refl, sym, ap, arith, List, Option, none, some, true, ◌==◌,
  if◌then◌else◌, Bool-cases, inl, inr, ==_iff,
}
use rapid_patch_runtime_ae.Patch.Context.{◌>>=◌}
use rapid_patch_runtime_ae.Table.Array.{array_get}
use rapid_patch_runtime_ae.Table.Hash.{str_hash_fn, str_equal_fn}
use rapid_patch_runtime_ae.Table.Map.{
  hashmap_node_create, Bucket, Hashmap, bucket_index, found_or_created, hashmap_set, matches,
  nodes_from, hashmap_get_node, value_at, hashmap_get, bucket_or_new,
}
use rapid_patch_runtime_ae.Table.Search.{
  HasRoom, pushed, array_get-pushed, array_get-last, str_equal_fn-eq, one_more, nodes_from-pushed,
  nodes_from-lt,
}
use rapid_patch_runtime_ae.Table.Changed.{
  IsHashmap, added, changed, hashmap_set-changed, same_bucket, other_bucket, search,
  hashmap_get-search,
}

module _ (strings : ℕ → List ℕ) (map : Hashmap) (key v : ℕ) (good : IsHashmap map)
    (room : HasRoom (found_or_created strings map key)) where
  same_index :
      (k : ℕ)
      → bucket_index strings map k ≡ bucket_index strings map key
      → found_or_created strings map k ≡ found_or_created strings map key
  unfolding found_or_created
  same_index k e = ap (λ i. bucket_or_new (array_get map.buckets i)) e

  -- A search in the bucket that the node has been added to.
  search-changed :
      (k : ℕ) (r : Option ℕ)
      → bucket_index strings map k ≡ bucket_index strings map key
      → search strings map k ≡ some r
      → search strings (changed strings map key v good room) k
        ≡ one_more strings
            (str_hash_fn (strings k))
            k
            (added strings map key v good room)
            (found_or_created strings map key).end
            r
  unfolding hashmap_get_node
  search-changed k r e before =
      let h = str_hash_fn (strings k) in
      let b = found_or_created strings map key in
      let new = added strings map key v good room in
      let one_end : b.end + 1 ≡ suc b.end = omega arith in
      let here : nodes_from strings h k b b.end 0 ≡ some r =
        ap (λ (c : Bucket). nodes_from strings h k c c.end 0) (sym (same_index k e)) ∙ before in
      ap (λ b. hashmap_get_node strings h b k) (same_bucket strings map key v good room k e)
      ∙ ap (λ c. nodes_from strings h k (pushed b new) c 0) one_end
      ∙ nodes_from-pushed strings h k new b b.end 0 room (omega arith)
      ∙ ap (λ o. o >>= one_more strings h k new b.end) here

  get-other :
      (k : ℕ)
      → bucket_index strings map k ≢ bucket_index strings map key
      → hashmap_get strings (changed strings map key v good room) k ≡ hashmap_get strings map k
  get-other k ne =
      let same = other_bucket strings map key v good room k ne in
      hashmap_get-search strings (changed strings map key v good room) k
      ∙ ap (λ b. hashmap_get_node strings (str_hash_fn (strings k)) b k >>= value_at b) same
      ∙ sym (hashmap_get-search strings map k)

  get-same :
      (k : ℕ) (r : Option ℕ)
      → bucket_index strings map k ≡ bucket_index strings map key
      → search strings map k ≡ some r
      → hashmap_get strings (changed strings map key v good room) k ≡ (
          one_more strings
            (str_hash_fn (strings k))
            k
            (added strings map key v good room)
            (found_or_created strings map key).end
            r
          >>= value_at
              (pushed (found_or_created strings map key) (added strings map key v good room)))
  get-same k r e before =
      hashmap_get-search strings (changed strings map key v good room) k
      ∙ ap (λ o. o >>= value_at (found_or_created strings (changed strings map key v good room) k))
          (search-changed k r e before)
      ∙ ap
          (λ b.
            one_more strings (str_hash_fn (strings k)) k (added strings map key v good room)
              (found_or_created strings map key).end r
            >>= value_at b)
          (same_bucket strings map key v good room k e)

  -- What a lookup returns after the insertion, when the search ended with `r` before it.
  abbrev pub value_after : ℕ → Option ℕ → Option ℕ
  value_after k none = some (if str_equal_fn (strings key) (strings k) then v else 0)
  value_after k (some j) = hashmap_get strings map k

  matches-added :
      (k : ℕ)
      → matches strings (str_hash_fn (strings k)) k (added strings map key v good room)
        ≡ str_equal_fn (strings key) (strings k)
  unfolding matches hashmap_node_create
  matches-added k = elim (Bool-cases (str_equal_fn (strings key) (strings k))) [
    | inr differ ↦ rw differ (ground arith)
    | inl same ↦
        let hashes : (str_hash_fn (strings key) == str_hash_fn (strings k)) ≡ true =
          (==_iff (str_hash_fn (strings key)) (str_hash_fn (strings k))).1
            (ap str_hash_fn (str_equal_fn-eq (strings key) (strings k) same)) in
        rw (hashes, same) refl
  ]

  get-after_same :
      (k : ℕ) (r : Option ℕ)
      → bucket_index strings map k ≡ bucket_index strings map key
      → search strings map k ≡ some r
      → hashmap_get strings (changed strings map key v good room) k ≡ value_after k r
  unfolding value_at hashmap_node_create hashmap_get_node
  get-after_same k none e before =
      let b = found_or_created strings map key in
      let new = added strings map key v good room in
      elim (Bool-cases (str_equal_fn (strings key) (strings k))) [
        | inl same ↦
            let hit = matches-added k ∙ same in
            get-same k none e before ∙ (rw (hit, same, array_get-last b new room) refl)
        | inr differ ↦
            let miss = matches-added k ∙ differ in
            get-same k none e before ∙ (rw (miss, differ) refl)
      ]
  get-after_same k (some j) e before =
      let b = found_or_created strings map key in
      let new = added strings map key v good room in
      let at_k = found_or_created strings map k in
      let ends : at_k.end ≡ b.end = ap (λ (c : Bucket). c.end) (same_index k e) in
      let low = nodes_from-lt strings (str_hash_fn (strings k)) k new at_k at_k.end 0 j before in
      let below : j < b.end = omega (arith, low, ends) in
      get-same k (some j) e before
      ∙ ap (λ o. o >>= λ node. some node.value) (array_get-pushed b new j below)
      ∙ sym (
          hashmap_get-search strings map k
          ∙ ap (λ o. o >>= value_at at_k) before
          ∙ ap (λ c. value_at c (some j)) (same_index k e))

  get-after_other :
      (k : ℕ) (r : Option ℕ)
      → bucket_index strings map k ≢ bucket_index strings map key
      → search strings map k ≡ some r
      → hashmap_get strings (changed strings map key v good room) k ≡ value_after k r
  unfolding bucket_index value_at
  get-after_other k (some j) ne before = get-other k ne
  get-after_other k none ne before =
      let nothing : hashmap_get strings map k ≡ some 0 =
        hashmap_get-search strings map k
        ∙ ap (λ o. o >>= value_at (found_or_created strings map k)) before in
      elim (Bool-cases (str_equal_fn (strings key) (strings k))) [
        | inl same ↦ absurd (
            ne (
              ap (λ t. str_hash_fn t % map.bucket_num)
                (sym (str_equal_fn-eq (strings key) (strings k) same))))
        | inr differ ↦ get-other k ne ∙ nothing ∙ (rw differ refl)
      ]

  get-after :
      (k : ℕ) (r : Option ℕ)
      → search strings map k ≡ some r
      → hashmap_get strings (changed strings map key v good room) k ≡ value_after k r
  get-after k r before =
      elim (Bool-cases (bucket_index strings map k == bucket_index strings map key)) [
        | inl one ↦ get-after_same k r ((==_iff _ _).0 one) before
        | inr two ↦ get-after_other k r (λ e. absurd (ground arith)) before
      ]

  -- With its buckets in place and room in the key's bucket, `Hashmap_set` succeeds, and every lookup
  -- after it is determined by the search before it: a key that was not found has the new value when
  -- its string equals the new key's, and none otherwise; a key that was found keeps its value, the
  -- new key included.
  pub hashmap_set-get :
      (k : ℕ) (r : Option ℕ)
      → search strings map k ≡ some r
      → (after : Hashmap) × (hashmap_set strings map key v ≡ some after)
        × (hashmap_get strings after k ≡ value_after k r)
  hashmap_set-get k r before = (
    changed strings map key v good room,
    hashmap_set-changed strings map key v good room,
    get-after k r before,
  )
