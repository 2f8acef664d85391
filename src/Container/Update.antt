-- ===== src/Container/Update.antt =====
-- The other ways through `arraymap_set`: overwriting, growing, and the first entry.
use mathlib.Core.Path.{subst}
use rapid_patch_runtime_ae.Common.{
  ℕ, ◌+◌, ◌<◌, ◌^◌, ◌≡◌, ◌≢◌, ◌∙◌, refl, sym, ap, arith, some, length, set, length-set,
  length-append, get_or-append, get_or-set_self, get_or-set_ne, inl, inr, ◌==◌, if◌then◌else◌,
  Bool-cases, ==_iff,
}
use rapid_patch_runtime_ae.Container.Sorted.{◌!◌}
use rapid_patch_runtime_ae.Container.ArrayMap.{ArrayMap, Slack, arraymap_get, grow, map_grow}
use rapid_patch_runtime_ae.Container.Lookup.{IsMap, get_cases, get_at, get_absent}

-- What the map answers is as if `key` had been bound to `val`.
abbrev pub Binds : ArrayMap → ℕ → ℕ → ArrayMap → ℕ → Type 0
Binds m key val m' j =
    IsMap m' × (arraymap_get m' j ≡ (if j == key then some val else arraymap_get m j))

module _ (m : ArrayMap) (h : IsMap m) (insert key val : ℕ) (p : insert < m.cur_size)
    (e : m.keys ! insert ≡ key) where
  abbrev pub overwritten : ArrayMap
  overwritten = record m { vals = set m.vals insert val }

  overwritten-IsMap : IsMap overwritten
  overwritten-IsMap = record {
    room = h.room;
    width = h.width;
    key_cells = h.key_cells;
    val_cells = length-set m.vals insert val ∙ h.val_cells;
    sorted = h.sorted;
  }

  overwritten_at :
      (i : ℕ)
      → i < m.cur_size
      → i ≢ insert
      → arraymap_get overwritten (m.keys ! i) ≡ some (m.vals ! i)
  overwritten_at i q n =
      get_at overwritten overwritten-IsMap (m.keys ! i) i q refl
      ∙ ap some (get_or-set_ne m.vals insert i val 0 (λ d. n (sym d)))

  pub overwritten-Binds : (j : ℕ) → Binds m key val overwritten j
  overwritten-Binds j = (
    overwritten-IsMap,
    elim (Bool-cases (j == key)) [
      | inl same ↦
          rw (same, (==_iff j key).0 same)
            (get_at overwritten overwritten-IsMap key insert p e
              ∙ ap some (get_or-set_self m.vals insert val 0 (omega (arith, h.room, h.val_cells))))
      | inr other ↦ rw other (elim (get_cases m h j) [
        | inl (i, q, d, got) ↦ rw got (
            subst (λ k. arraymap_get overwritten k ≡ some (m.vals ! i)) d
              (overwritten_at i q (λ same. ground (arith, e))))
        | inr absent ↦ rw absent.1 (get_absent overwritten overwritten-IsMap j absent.0)
      ])
    ],
  )

-- Growing changes no entry.
module _ (sl : Slack) (m : ArrayMap) (h : IsMap m) (tk : length sl.tail_keys ≡ map_grow)
    (tv : length sl.tail_vals ≡ map_grow) (fits : m.max_size + map_grow < 2 ^ 16) where
  pub grown_key : (i : ℕ) → i < m.cur_size → (grow sl m).keys ! i ≡ m.keys ! i
  unfolding grow
  grown_key i p = get_or-append m.keys sl.tail_keys i 0 (omega (arith, h.room, h.key_cells))

  grown_val : (i : ℕ) → i < m.cur_size → (grow sl m).vals ! i ≡ m.vals ! i
  unfolding grow
  grown_val i p = get_or-append m.vals sl.tail_vals i 0 (omega (arith, h.room, h.val_cells))

  pub grown_size :
      ((grow sl m).cur_size ≡ m.cur_size) × ((grow sl m).max_size ≡ m.max_size + map_grow)
  unfolding grow
  grown_size = (refl, omega arith)

  pub grown-IsMap : IsMap (grow sl m)
  grown-IsMap = record {
    room = omega (arith, grown_size, h.room);
    width = omega (arith, grown_size);
    key_cells = unfold grow in omega (arith, length-append m.keys sl.tail_keys, tk, h.key_cells);
    val_cells = unfold grow in omega (arith, length-append m.vals sl.tail_vals, tv, h.val_cells);
    sorted = λ i j p q. ground (arith, grown_size, grown_key i, grown_key j, h.sorted i j);
  }

  pub grown-get : (j : ℕ) → arraymap_get (grow sl m) j ≡ arraymap_get m j
  grown-get j = elim (get_cases m h j) [
    | inl (i, p, e, got) ↦
        get_at (grow sl m) grown-IsMap j i (omega (arith, grown_size)) (grown_key i p ∙ e)
        ∙ ap some (grown_val i p)
        ∙ sym got
    | inr absent ↦
        get_absent (grow sl m) grown-IsMap j
          (λ i p. ground (arith, grown_size, grown_key i, absent.0 i))
        ∙ sym absent.1
  ]

module _ (m : ArrayMap) (h : IsMap m) (key val : ℕ) (empty : m.cur_size ≡ 0)
    (room : 0 < m.max_size) where
  abbrev pub first : ArrayMap
  first = record m { keys = set m.keys 0 key; vals = set m.vals 0 val; cur_size = 1 }

  first-IsMap : IsMap first
  first-IsMap = record {
    room = room;
    width = h.width;
    key_cells = length-set m.keys 0 key ∙ h.key_cells;
    val_cells = length-set m.vals 0 val ∙ h.val_cells;
    sorted = λ i j p q. absurd (omega arith);
  }

  first_key : first.keys ! 0 ≡ key
  first_key = get_or-set_self m.keys 0 key 0 (omega (arith, h.key_cells))

  pub first-Binds : (j : ℕ) → Binds m key val first j
  first-Binds j = (
    first-IsMap,
    elim (Bool-cases (j == key)) [
      | inl same ↦
          rw (same, (==_iff j key).0 same)
            (get_at first first-IsMap key 0 (omega arith) first_key
              ∙ ap some (get_or-set_self m.vals 0 val 0 (omega (arith, h.val_cells))))
      | inr other ↦
          rw (other, get_absent m h j (λ i p. absurd (omega arith)))
            (get_absent first first-IsMap j
              (λ i p. let at_zero : i ≡ 0 = omega arith in rw at_zero (ground (arith, first_key))))
    ],
  )
