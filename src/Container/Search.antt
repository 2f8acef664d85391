-- ===== src/Container/Search.antt =====
-- The searches of libebpf/src/hashmap.c over an array of keys, which are pointers read as 32-bit
-- numbers.
use rapid_patch_runtime_ae.Common.{
  ℕ, zero, suc, ◌+◌, ◌-◌, ◌/◌, List, true, false, none, some, ltb, ◌==◌, get_elem?,
}

-- How a search ends: at an index, without one (-1 in C), by a read outside the array, or because
-- the model's fuel is used up.
pub data Search : Type 0 where
  found : ℕ → Search
  missing fault out_of_fuel : Search

-- The loop of `binary_search`; `stop` is `end + 1`, since `end` may become -1.
unfoldable pub search_loop : List ℕ → ℕ → ℕ → ℕ → ℕ → Search
search_loop arr val zero start stop = out_of_fuel
search_loop arr val (suc fuel) start stop = elim (ltb start stop) [
  | false ↦ missing
  | true ↦ elim (get_elem? arr ((start + (stop - 1)) / 2)) [
    | none ↦ fault
    | some m ↦ elim (m == val) [
      | true ↦ found ((start + (stop - 1)) / 2)
      | false ↦ elim (ltb val m) [
        | true ↦ search_loop arr val fuel start ((start + (stop - 1)) / 2)
        | false ↦ search_loop arr val fuel ((start + (stop - 1)) / 2 + 1) stop
      ]
    ]
  ]
]

unfoldable pub binary_search : List ℕ → ℕ → ℕ → Search
unfolding search_loop
binary_search arr size val = search_loop arr val (size + 1) 0 size

-- The loop of `lower_bound`.
unfoldable pub lower_loop : List ℕ → ℕ → ℕ → ℕ → ℕ → Search
lower_loop arr val zero start end = out_of_fuel
lower_loop arr val (suc fuel) start end = elim (ltb (start + 1) end) [
  | false ↦ found end
  | true ↦ elim (get_elem? arr ((start + end) / 2)) [
    | none ↦ fault
    | some m ↦ elim (ltb m val) [
      | true ↦ lower_loop arr val fuel ((start + end) / 2) end
      | false ↦ lower_loop arr val fuel start ((start + end) / 2)
    ]
  ]
]

unfoldable pub lower_bound : List ℕ → ℕ → ℕ → Search
unfolding lower_loop
lower_bound arr size val = lower_loop arr val (size + 1) 0 size
