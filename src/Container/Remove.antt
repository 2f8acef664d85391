-- ===== src/Container/Remove.antt =====
-- `arraymap_del` on a well-formed map.
use mathlib.Core.Path.{subst}
use rapid_patch_runtime_ae.Common.{
  ℕ, ◌+◌, ◌-◌, ◌≤◌, ◌<◌, ◌≡◌, ◌≢◌, ◌∙◌, refl, ap, arith, List, some, length, set, length-set,
  get_or-set_ne, inl, inr, ltb, leb, false, ◌==◌, if◌then◌else◌, Bool-cases, ==_iff,
}
use native.Mathlib.Decide.{dec_lt}
use rapid_patch_runtime_ae.Container.Search.{
  Search, found, missing, fault, out_of_fuel, binary_search,
}
use rapid_patch_runtime_ae.Container.Sorted.{◌!◌, Locates, binary_search-Locates}
use rapid_patch_runtime_ae.Container.ArrayMap.{
  ArrayMap, arraymap_get, arraymap_del, remove_at, shift_down,
}
use rapid_patch_runtime_ae.Container.Shifts.{length-shift_down, get_or-shift_down}
use rapid_patch_runtime_ae.Container.Lookup.{IsMap, get_cases, get_at, get_absent}

-- The contents of an array of which the first `n` cells are in use after cell `idx` was closed.
closed :
    (n idx : ℕ) (xs : List ℕ) (j : ℕ)
    → idx < n
    → n ≤ length xs
    → j + 1 < n
    → set (shift_down (n - idx) idx xs) (n - 1) 0 ! j ≡ (if ltb j idx then xs ! j else xs ! (j + 1))
closed n idx xs j p q r = ground (
  arith,
  length-shift_down (n - idx) idx xs,
  get_or-shift_down (n - idx) idx xs j,
  get_or-set_ne (shift_down (n - idx) idx xs) (n - 1) j 0 0,
)

module _ (m : ArrayMap) (h : IsMap m) (idx : ℕ) (p : idx < m.cur_size) where
  abbrev rest : ArrayMap
  rest = remove_at m idx

  rest_size : rest.cur_size ≡ m.cur_size - 1
  unfolding remove_at
  rest_size = refl

  key_cell :
      (j : ℕ)
      → j + 1 < m.cur_size
      → rest.keys ! j ≡ (if ltb j idx then m.keys ! j else m.keys ! (j + 1))
  unfolding remove_at
  key_cell j q = closed m.cur_size idx m.keys j p (omega (arith, h.room, h.key_cells)) q

  val_cell :
      (j : ℕ)
      → j + 1 < m.cur_size
      → rest.vals ! j ≡ (if ltb j idx then m.vals ! j else m.vals ! (j + 1))
  unfolding remove_at
  val_cell j q = closed m.cur_size idx m.vals j p (omega (arith, h.room, h.val_cells)) q

  rest-IsMap : IsMap rest
  unfolding remove_at
  rest-IsMap = record {
    room = omega (arith, h.room);
    width = h.width;
    key_cells =
        length-set (shift_down (m.cur_size - idx) idx m.keys) (m.cur_size - 1) 0
        ∙ length-shift_down (m.cur_size - idx) idx m.keys
        ∙ h.key_cells;
    val_cells =
        length-set (shift_down (m.cur_size - idx) idx m.vals) (m.cur_size - 1) 0
        ∙ length-shift_down (m.cur_size - idx) idx m.vals
        ∙ h.val_cells;
    sorted = λ i j a b. ground (
      arith,
      key_cell i (omega arith),
      key_cell j (omega arith),
      h.sorted i j,
      h.sorted i (j + 1),
      h.sorted (i + 1) (j + 1),
    );
  }

  rest-get_old :
      (i : ℕ) → i < m.cur_size → i ≢ idx → arraymap_get rest (m.keys ! i) ≡ some (m.vals ! i)
  rest-get_old i q n = elim (dec_lt i idx) [
    | yes low ↦
        get_at rest rest-IsMap (m.keys ! i) i (omega (arith, rest_size))
          (ground (arith, key_cell i (omega arith)))
        ∙ ap some (ground (arith, val_cell i (omega arith)))
    | no high ↦
        get_at rest rest-IsMap (m.keys ! i) (i - 1) (omega (arith, rest_size))
          (ground (arith, key_cell (i - 1) (omega arith)))
        ∙ ap some (ground (arith, val_cell (i - 1) (omega arith)))
  ]

  rest-get_absent :
      (j : ℕ) → ((i : ℕ) → i < m.cur_size → i ≢ idx → m.keys ! i ≢ j) → arraymap_get rest j ≡ some 0
  rest-get_absent j absent = get_absent rest rest-IsMap j λ i q.
      ground (arith, rest_size, key_cell i (omega (arith, rest_size)), absent i, absent (i + 1))

  rest-get :
      (j : ℕ) → arraymap_get rest j ≡ (if j == m.keys ! idx then some 0 else arraymap_get m j)
  rest-get j = elim (Bool-cases (j == m.keys ! idx)) [
    | inl same ↦
        rw same (rest-get_absent j (λ i q n. ground (arith, h.sorted i idx, h.sorted idx i)))
    | inr other ↦ rw other (elim (get_cases m h j) [
      | inl (i, q, e, got) ↦ rw got (
          subst (λ k. arraymap_get rest k ≡ some (m.vals ! i)) e
            (rest-get_old i q (λ at. ground arith)))
      | inr absent ↦ rw absent.1 (rest-get_absent j (λ i q n. absent.0 i q))
    ])
  ]

module _ (m : ArrayMap) (h : IsMap m) (space : m.cur_size < m.max_size) (key j : ℕ) where
  removes :
      (r : Search)
      → binary_search m.keys m.cur_size key ≡ r
      → Locates m.keys key 0 m.cur_size r
      → (m' : ArrayMap) × (arraymap_del m key ≡ some m')
        × IsMap m'
        × (arraymap_get m' j ≡ (if j == key then some 0 else arraymap_get m j))
  unfolding arraymap_del
  removes (found idx) e l = (
    remove_at m idx,
    (let inside : leb (length m.keys) m.cur_size ≡ false =
          let cells = h.key_cells in ground arith in
        rw (e, arraymap_del, inside)),
    rest-IsMap m h idx l.1,
    subst (λ k. arraymap_get (remove_at m idx) j ≡ (if j == k then some 0 else arraymap_get m j))
        l.2 (rest-get m h idx l.1 j),
  )
  removes missing e l = (
    m,
    rw (e, arraymap_del),
    h,
    elim (Bool-cases (j == key)) [
      | inl same ↦
          rw (same, (==_iff j key).0 same) (get_absent m h key (λ i p. l i (omega arith) p))
      | inr other ↦ rw other
    ],
  )
  removes fault e l = absurd l
  removes out_of_fuel e l = absurd l

  -- On a well-formed map that is not full `arraymap_del` returns a well-formed map that answers NULL
  -- for the key and for every other key what it answered before.
  pub arraymap_del-get :
      (m' : ArrayMap) × (arraymap_del m key ≡ some m')
      × IsMap m'
      × (arraymap_get m' j ≡ (if j == key then some 0 else arraymap_get m j))
  arraymap_del-get =
      removes _ refl
        (binary_search-Locates m.keys key m.cur_size (omega (arith, h.room, h.key_cells)) h.sorted)
