-- ===== src/Tests/Maps.antt =====
-- The theorems about the arrays of hashmap.c at concrete maps.
use rapid_patch_runtime_ae.Common.{zero, suc, ◌≡◌, refl, arith, [], ◌∷◌, some, if◌then◌else◌, ◌==◌}
use rapid_patch_runtime_ae.Container.Search.{binary_search, lower_bound}
use rapid_patch_runtime_ae.Container.Sorted.{IsSorted, Locates, binary_search-Locates}
use rapid_patch_runtime_ae.Container.ArrayMap.{
  ArrayMap, Slack, arraymap_set, arraymap_get, arraymap_del,
}
use rapid_patch_runtime_ae.Container.Lookup.{IsMap}
use rapid_patch_runtime_ae.Container.Remove.{arraymap_del-get}
use rapid_patch_runtime_ae.Container.Misplaced.{single, arraymap_set_not_above_first}

program : Unit {0}
unfolding arraymap_set arraymap_get arraymap_del binary_search lower_bound
program = tt

-- A full map of two entries.
abbrev full_map : ArrayMap
full_map = record { max_size = 2; cur_size = 2; keys = 10 ∷ 20 ∷ []; vals = 1 ∷ 2 ∷ [] }

abbrev slack : Slack
slack = record { tail_keys = 91 ∷ 92 ∷ 93 ∷ 94 ∷ []; tail_vals = 95 ∷ 96 ∷ 97 ∷ 98 ∷ [] }

keys-IsSorted : IsSorted (10 ∷ 20 ∷ []) 2
keys-IsSorted zero zero p q = absurd (omega arith)
keys-IsSorted zero (suc zero) p q = omega arith
keys-IsSorted zero (suc (suc j)) p q = absurd (omega arith)
keys-IsSorted (suc i) zero p q = absurd (omega arith)
keys-IsSorted (suc i) (suc j) p q = absurd (omega arith)

grows_in_the_middle :
    arraymap_set slack full_map 15 3
    ≡ some (record {
      max_size = 6;
      cur_size = 3;
      keys = 10 ∷ 15 ∷ 20 ∷ 92 ∷ 93 ∷ 94 ∷ [];
      vals = 1 ∷ 3 ∷ 2 ∷ 96 ∷ 97 ∷ 98 ∷ [];
    })
unfolding program
grows_in_the_middle = refl

binary_search-Locates_example : Locates (10 ∷ 20 ∷ []) 20 0 2 (binary_search (10 ∷ 20 ∷ []) 2 20)
binary_search-Locates_example =
    binary_search-Locates (10 ∷ 20 ∷ []) 20 2 (omega arith) keys-IsSorted

-- Two entries with room for a third.
abbrev roomy_map : ArrayMap
roomy_map = record { max_size = 3; cur_size = 2; keys = 10 ∷ 20 ∷ 0 ∷ []; vals = 1 ∷ 2 ∷ 0 ∷ [] }

roomy-IsSorted : IsSorted (10 ∷ 20 ∷ 0 ∷ []) 2
roomy-IsSorted zero zero p q = absurd (omega arith)
roomy-IsSorted zero (suc zero) p q = omega arith
roomy-IsSorted zero (suc (suc j)) p q = absurd (omega arith)
roomy-IsSorted (suc i) zero p q = absurd (omega arith)
roomy-IsSorted (suc i) (suc j) p q = absurd (omega arith)

roomy_map-IsMap : IsMap roomy_map
roomy_map-IsMap = record {
  room = omega arith;
  width = omega arith;
  key_cells = refl;
  val_cells = refl;
  sorted = roomy-IsSorted;
}

arraymap_del-get_example :
    (m' : ArrayMap) × (arraymap_del roomy_map 10 ≡ some m')
    × IsMap m'
    × (arraymap_get m' 20 ≡ (if 20 == 10 then some 0 else arraymap_get roomy_map 20))
arraymap_del-get_example = arraymap_del-get roomy_map roomy_map-IsMap (omega arith) 10 20

arraymap_set_not_above_first_example :
    (m' : ArrayMap) × (arraymap_set slack (single 4 20 2 0 0 (0 ∷ 0 ∷ []) (0 ∷ 0 ∷ [])) 10 1
      ≡ some m')
    × (arraymap_get m' 10 ≡ some (if 10 == 20 then 2 else 0))
arraymap_set_not_above_first_example =
    arraymap_set_not_above_first slack 4 20 2 10 1 0 0 (0 ∷ 0 ∷ []) (0 ∷ 0 ∷ []) (omega arith)
      (omega arith) (omega arith)
