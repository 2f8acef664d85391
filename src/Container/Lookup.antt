-- ===== src/Container/Lookup.antt =====
-- `arraymap_get` on a well-formed map: it finds every entry and reports every missing key.
use rapid_patch_runtime_ae.Common.{
  ℕ, ◌≤◌, ◌<◌, ◌^◌, ◌≡◌, ◌≢◌, refl, arith, some, length, ◌⊎◌, inl, inr,
}
use rapid_patch_runtime_ae.Container.Search.{
  Search, found, missing, fault, out_of_fuel, binary_search,
}
use rapid_patch_runtime_ae.Container.Sorted.{◌!◌, IsSorted, Locates, binary_search-Locates}
use rapid_patch_runtime_ae.Container.ArrayMap.{ArrayMap, arraymap_get}

-- The arrays have `max_size` cells, of which `cur_size` are in use, their keys ascending.
pub record IsMap (m : ArrayMap) : Type 0 where
  pub room : m.cur_size ≤ m.max_size
  pub width : m.max_size < 2 ^ 16
  pub key_cells : length m.keys ≡ m.max_size
  pub val_cells : length m.vals ≡ m.max_size
  pub sorted : IsSorted m.keys m.cur_size

module _ (m : ArrayMap) (h : IsMap m) (key : ℕ) where
  -- Either the key has an index, or it has none and `arraymap_get` returns NULL.
  abbrev Answers : Search → Type 0
  Answers r =
      ((i : ℕ) × (i < m.cur_size) × (m.keys ! i ≡ key) × (arraymap_get m key ≡ some (m.vals ! i)))
      ⊎ (((i : ℕ) → i < m.cur_size → m.keys ! i ≢ key) × (arraymap_get m key ≡ some 0))

  answers :
      (r : Search)
      → binary_search m.keys m.cur_size key ≡ r
      → Locates m.keys key 0 m.cur_size r
      → Answers r
  unfolding arraymap_get
  answers (found i) e l = inl (i, l.1, l.2, rw (e, arraymap_get))
  answers missing e l = inr ((λ i p. l i (omega arith) p), rw (e, arraymap_get))
  answers fault e l = absurd l
  answers out_of_fuel e l = absurd l

  pub get_cases :
      ((i : ℕ) × (i < m.cur_size) × (m.keys ! i ≡ key) × (arraymap_get m key ≡ some (m.vals ! i)))
      ⊎ (((i : ℕ) → i < m.cur_size → m.keys ! i ≢ key) × (arraymap_get m key ≡ some 0))
  get_cases =
      answers _ refl
        (binary_search-Locates m.keys key m.cur_size (omega (arith, h.room, h.key_cells)) h.sorted)

  -- `arraymap_get` returns the value at the index that holds the key.
  pub get_at : (i : ℕ) → i < m.cur_size → m.keys ! i ≡ key → arraymap_get m key ≡ some (m.vals ! i)
  get_at i p e = elim get_cases [
    | inr absent ↦ absurd (absent.0 i p e)
    | inl (j, q, d, got) ↦ ground (arith, h.sorted i j, h.sorted j i)
  ]

  -- `arraymap_get` returns NULL for a key that has no index.
  pub get_absent : ((i : ℕ) → i < m.cur_size → m.keys ! i ≢ key) → arraymap_get m key ≡ some 0
  get_absent none_there = elim get_cases [
    | inr absent ↦ absent.1
    | inl (j, q, d, got) ↦ absurd (none_there j q d)
  ]
