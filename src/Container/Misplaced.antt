-- ===== src/Container/Misplaced.antt =====
-- `arraymap_set` with a key that is not above the first one: `lower_bound` never returns index 0.
use rapid_patch_runtime_ae.Common.{
  ℕ, ◌≤◌, ◌<◌, ◌≡◌, ◌≢◌, arith, List, ◌∷◌, some, ◌==◌, if◌then◌else◌,
}
use rapid_patch_runtime_ae.Container.ArrayMap.{ArrayMap, Slack, arraymap_set, arraymap_get}

-- A map with capacity for at least two entries that holds one, with what lies behind it.
abbrev pub single : ℕ → ℕ → ℕ → ℕ → ℕ → List ℕ → List ℕ → ArrayMap
single cap k v behind_key behind_val more_keys more_vals = record {
  max_size = cap;
  cur_size = 1;
  keys = k ∷ behind_key ∷ more_keys;
  vals = v ∷ behind_val ∷ more_vals;
}

-- Setting a key below the only key of a map loses it: `arraymap_get` returns NULL for it
-- afterwards. Setting the only key itself does not change its value: `arraymap_get` still returns
-- the old one. (The word behind the last key is taken not to be the new key by chance.)
pub arraymap_set_not_above_first :
    (sl : Slack) (cap k v key val bk bv : ℕ) (ks vs : List ℕ)
    → 1 < cap
    → key ≤ k
    → bk ≢ key
    → (m' : ArrayMap) × (arraymap_set sl (single cap k v bk bv ks vs) key val ≡ some m')
      × (arraymap_get m' key ≡ some (if key == k then v else 0))
unfolding arraymap_set arraymap_get
arraymap_set_not_above_first sl cap k v key val bk bv ks vs room below behind = (
  record { max_size = cap; cur_size = 2; keys = k ∷ key ∷ ks; vals = v ∷ val ∷ vs },
  ground arith,
  ground arith,
)
