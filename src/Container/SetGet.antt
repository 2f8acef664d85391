-- ===== src/Container/SetGet.antt =====
-- `arraymap_set` of libebpf/src/hashmap.c, put together.
use rapid_patch_runtime_ae.Common.{
  ℕ, ◌+◌, ◌-◌, ◌≤◌, ◌<◌, ◌^◌, ◌≡◌, ◌≢◌, ◌∙◌, refl, ap, arith, some, Option, length, get_or, ◌⊎◌,
  inl, inr, ltb, leb, ◌==◌, if◌then◌else◌, Bool-cases, true, false, ==_iff, lt→ltb,
}
use rapid_patch_runtime_ae.Container.Search.{
  Search, found, missing, fault, out_of_fuel, lower_bound,
}
use rapid_patch_runtime_ae.Container.Sorted.{◌!◌, Splits, lower_bound-Splits}
use rapid_patch_runtime_ae.Container.ArrayMap.{
  ArrayMap, Slack, arraymap_get, arraymap_set, set_at, set_first, insert_at, grow, map_grow,
}
use rapid_patch_runtime_ae.Container.Lookup.{IsMap}
use rapid_patch_runtime_ae.Container.Insert.{IsGap, after-IsMap, after-get}
use rapid_patch_runtime_ae.Container.Update.{
  Binds, overwritten-Binds, grown_key, grown_size, grown-IsMap, grown-get, first, first-Binds,
}

-- The inputs on which `arraymap_set` does what it means to: there is room or the arrays can grow,
-- the key is above the first one or the map is empty, the search does not read past a full array
-- (the map is not full or the key is at most its last one), and the word that it reads behind the
-- last key is not by chance the new key.
pub record Settable (sl : Slack) (m : ArrayMap) (key : ℕ) : Type 0 where
  pub grows : m.max_size + map_grow < 2 ^ 16
  pub tail_keys : length sl.tail_keys ≡ map_grow
  pub tail_vals : length sl.tail_vals ≡ map_grow
  pub readable : (m.cur_size < m.max_size) ⊎ (key ≤ m.keys ! (m.cur_size - 1))
  pub behind : get_or m.keys m.cur_size 0 ≢ key
  pub above_first : ((m.cur_size ≡ 0) × (0 < m.max_size)) ⊎ ((0 < m.cur_size) × (m.keys ! 0 < key))

module _ (sl : Slack) (m : ArrayMap) (h : IsMap m) (key val j : ℕ) (ok : Settable sl m key) where
  abbrev Sets : Option ArrayMap → Type 0
  Sets r = (m' : ArrayMap) × (r ≡ some m') × Binds m key val m' j

  inserts :
      (insert : ℕ)
      → insert ≤ m.cur_size
      → ((i : ℕ) → i < insert → m.keys ! i < key)
      → ((i : ℕ) → insert ≤ i → i < m.cur_size → key < m.keys ! i)
      → Sets (
          if leb m.max_size m.cur_size
          then some (insert_at (grow sl m) insert key val)
          else some (insert_at m insert key val))
  inserts insert p below above = elim (Bool-cases (leb m.max_size m.cur_size)) [
    | inr space ↦
        let gap : IsGap m insert key = record {
          inside = p;
          free = ground arith;
          below = below;
          above = above;
        } in
        rw space (_, refl, (after-IsMap m h insert key val gap, after-get m h insert key val gap j))
    | inl full ↦
        let g = grow sl m in
        let gm : IsMap g = grown-IsMap sl m h ok.tail_keys ok.tail_vals ok.grows in
        let size = grown_size sl m h ok.tail_keys ok.tail_vals ok.grows in
        let cell = grown_key sl m h ok.tail_keys ok.tail_vals ok.grows in
        let gap : IsGap g insert key = record {
          inside = omega (arith, size);
          free = omega (arith, size, h.room);
          below = λ i q. ground (arith, size, cell i, below i);
          above = λ i q r. ground (arith, size, cell i, above i);
        } in
        rw full (
          _,
          refl,
          (
            after-IsMap g gm insert key val gap,
            after-get g gm insert key val gap j
                ∙ ap (λ (r : Option ℕ). if j == key then some val else r)
                    (grown-get sl m h ok.tail_keys ok.tail_vals ok.grows j),
          ),
        )
  ]

  -- The search's read is inside the array.
  insert_inside :
      (insert : ℕ)
      → m.keys ! 0 < key
      → 0 < m.cur_size
      → Splits m.keys key m.cur_size (found insert)
      → insert < length m.keys
  insert_inside insert first pos s = elim ok.readable [
    | inl space ↦ omega (arith, s.1, h.key_cells)
    | inr at_most ↦ ground (arith, s.1, s.2 (m.cur_size - 1), first, h.room, h.key_cells)
  ]

  Sets-at :
      (insert : ℕ)
      → m.keys ! 0 < key
      → 0 < m.cur_size
      → Splits m.keys key m.cur_size (found insert)
      → Sets (set_at sl m insert key val)
  unfolding set_at
  Sets-at insert first pos s =
      let cell = insert_inside insert first pos s in
      let reads : leb (length m.keys) insert ≡ false = ground arith in
      elim (Bool-cases (get_or m.keys insert 0 == key)) [
        | inr fresh ↦
            rw (reads, fresh)
              (inserts insert s.1 (λ i p. ground (arith, s.2 i, first))
                (λ i p q.
                  ground (arith, s.3 i, s.3 insert, h.sorted insert i, h.room, h.key_cells)))
        | inl same ↦
            let there = (==_iff _ key).0 same in
            let used : insert < m.cur_size = ground (arith, s.1, ok.behind) in
            let here : m.keys ! insert ≡ key = there in
            let inside : ltb insert (length m.vals) ≡ true =
              lt→ltb _ _ (omega (arith, h.room, h.val_cells)) in
            rw (reads, same, inside) (_, refl, overwritten-Binds m h insert key val used here j)
      ]

  Sets-by :
      (r : Search)
      → m.keys ! 0 < key
      → 0 < m.cur_size
      → lower_bound m.keys m.cur_size key ≡ r
      → Splits m.keys key m.cur_size r
      → Sets (arraymap_set sl m key val)
  unfolding arraymap_set
  Sets-by (found insert) first pos e s =
      let occupied : (m.cur_size == 0) ≡ false = ground arith in
      rw (occupied, e, arraymap_set) (Sets-at insert first pos s)
  Sets-by missing first pos e s = absurd s
  Sets-by fault first pos e s = absurd s
  Sets-by out_of_fuel first pos e s = absurd s

  pub arraymap_set-get :
      (m' : ArrayMap) × (arraymap_set sl m key val ≡ some m')
      × IsMap m'
      × (arraymap_get m' j ≡ (if j == key then some val else arraymap_get m j))
  unfolding arraymap_set set_first
  arraymap_set-get = elim ok.above_first [
    | inl (empty, room) ↦
        let b = first-Binds m h key val empty room j in
        let vacant : (m.cur_size == 0) ≡ true = ground arith in
        let key_fits : ltb 0 (length m.keys) ≡ true = lt→ltb _ _ (omega (arith, h.key_cells)) in
        let val_fits : ltb 0 (length m.vals) ≡ true = lt→ltb _ _ (omega (arith, h.val_cells)) in
        (first m h key val empty room, rw vacant (rw (key_fits, val_fits, set_first)), b.0, b.1)
    | inr (pos, greater) ↦
        let (m', done, b) = Sets-by _ greater pos refl (
          lower_bound-Splits m.keys key m.cur_size (omega (arith, h.room, h.key_cells)) h.sorted
            pos) in
        (m', done, b.0, b.1)
  ]
