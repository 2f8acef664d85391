-- ===== src/Table/Search.antt =====
-- The search in a bucket of the `Hashmap` of libebpf/src/ebpf_map.c to which a node is added.
use rapid_patch_runtime_ae.Common.{
  ℕ, zero, suc, ◌+◌, ◌<◌, ◌≡◌, refl, arith, List, [], ◌∷◌, Option, none, some, true, ◌==◌, ltb,
  if◌then◌else◌, length, set, get_or-set_self, get_or-set_ne, Bool-cases, Option-cases, inl, inr,
  ==_iff,
}
use rapid_patch_runtime_ae.Patch.Filter.{some_inj}
use rapid_patch_runtime_ae.Patch.Context.{◌>>=◌}
use rapid_patch_runtime_ae.Table.Array.{array_get, array_push}
use rapid_patch_runtime_ae.Table.Hash.{str_equal_fn}
use rapid_patch_runtime_ae.Table.Map.{HashmapNode, Bucket, matches, nodes_from}

-- The bucket has its cells, and room for one more node.
abbrev pub HasRoom : Bucket → Type 0
HasRoom b = (length b.contents ≡ b.max) × (b.end < b.max)

abbrev pub pushed : Bucket → HashmapNode → Bucket
pushed b n = record b { end = b.end + 1; contents = set b.contents b.end (some n) }

pub array_push-room :
    (b : Bucket) (n : HashmapNode) → HasRoom b → array_push b n ≡ some (pushed b n)
unfolding array_push
array_push-room b n (cells, room) =
    let fits : ltb b.end (length b.contents) ≡ true = ground arith in rw fits refl

pub array_get-pushed :
    (b : Bucket) (n : HashmapNode) (i : ℕ) → i < b.end → array_get (pushed b n) i ≡ array_get b i
unfolding array_get
array_get-pushed b n i less =
    rw (get_or-set_ne b.contents b.end i (some n) none (λ e. absurd (omega arith))) refl

pub array_get-last :
    (b : Bucket) (n : HashmapNode) → HasRoom b → array_get (pushed b n) b.end ≡ some n
unfolding array_get
array_get-last b n (cells, room) =
    let fits : ltb b.end b.max ≡ true = ground arith in
    rw (fits, get_or-set_self b.contents b.end (some n) none (omega arith)) refl

pub str_equal_fn-eq : (a b : List ℕ) → str_equal_fn a b ≡ true → a ≡ b
unfolding str_equal_fn
str_equal_fn-eq [] [] e = refl
str_equal_fn-eq [] (y ∷ b) e = absurd (cc)
str_equal_fn-eq (x ∷ a) [] e = absurd (cc)
str_equal_fn-eq (x ∷ a) (y ∷ b) e = elim (Bool-cases (x == y)) [
  | inl same ↦
      let x_y : x ≡ y = (==_iff x y).0 same in
      let rest : a ≡ b = str_equal_fn-eq a b (rw same at e) in cc
  | inr differ ↦ absurd (let z = rw differ at e in cc)
]

module _ (strings : ℕ → List ℕ) (hash key : ℕ) (n : HashmapNode) where
  -- What a search that ended with `r` finds when the node is added at `last`.
  abbrev pub one_more : ℕ → Option ℕ → Option (Option ℕ)
  one_more last none = if matches strings hash key n then some (some last) else some none
  one_more last (some j) = some (some j)

  pub nodes_from-pushed :
      (b : Bucket) (count i : ℕ)
      → HasRoom b
      → i + count ≡ b.end
      → nodes_from strings hash key (pushed b n) (suc count) i
        ≡ (nodes_from strings hash key b count i >>= one_more b.end)
  unfolding nodes_from
  nodes_from-pushed b zero i room e =
      let here : i ≡ b.end = omega arith in rw (here, array_get-last b n room) refl
  nodes_from-pushed b (suc count) i room e = elim (Option-cases (array_get b i)) [
    | inl gone ↦ rw (array_get-pushed b n i (omega arith), gone) refl
    | inr (node, at_i) ↦ elim (Bool-cases (matches strings hash key node)) [
      | inl hit ↦ rw (array_get-pushed b n i (omega arith), at_i, hit) refl
      | inr miss ↦
          let later = nodes_from-pushed b count (i + 1) room (omega arith) in
          rw (array_get-pushed b n i (omega arith), at_i, miss) later
    ]
  ]

  pub nodes_from-lt :
      (b : Bucket) (count i j : ℕ)
      → nodes_from strings hash key b count i ≡ some (some j)
      → j < i + count
  unfolding nodes_from
  nodes_from-lt b zero i j e = absurd (cc)
  nodes_from-lt b (suc count) i j e = elim (Option-cases (array_get b i)) [
    | inl gone ↦ absurd (let z = rw gone at e in cc)
    | inr (node, at_i) ↦ elim (Bool-cases (matches strings hash key node)) [
      | inl hit ↦
          let z = rw (at_i, hit) at e in
          let same : i ≡ j = some_inj (some_inj z) in omega (arith, same)
      | inr miss ↦ let z = rw (at_i, miss) at e in omega (arith, nodes_from-lt b count (i + 1) j z)
    ]
  ]
