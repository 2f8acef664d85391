-- ===== src/Container/Insert.antt =====
-- `arraymap_set` on a well-formed map: the key is found afterwards with its new value, every other
-- key as before, if the new key is not below the first one.
use rapid_patch_runtime_ae.Common.{
  ℕ, ◌+◌, ◌-◌, ◌≤◌, ◌<◌, ◌≡◌, ◌≢◌, ◌∙◌, ap, arith, List, some, length, set, length-set,
  get_or-set_self, get_or-set_ne, inl, inr, ltb, ◌==◌, if◌then◌else◌, Bool-cases, ==_iff,
}
use mathlib.Core.Path.{subst}
use native.Mathlib.Decide.{dec_lt}
use rapid_patch_runtime_ae.Container.Sorted.{◌!◌}
use rapid_patch_runtime_ae.Container.ArrayMap.{ArrayMap, arraymap_get, insert_at, shift_up}
use rapid_patch_runtime_ae.Container.Shifts.{length-shift_up, get_or-shift_up}
use rapid_patch_runtime_ae.Container.Lookup.{IsMap, get_cases, get_at, get_absent}

-- The place of a new key: all keys before it are smaller, all from it on are greater, and there is
-- a free cell.
pub record IsGap (m : ArrayMap) (insert key : ℕ) : Type 0 where
  pub inside : insert ≤ m.cur_size
  pub free : m.cur_size < m.max_size
  pub below : (i : ℕ) → i < insert → m.keys ! i < key
  pub above : (i : ℕ) → insert ≤ i → i < m.cur_size → key < m.keys ! i

-- The contents of an array after `x` has been put into the gap.
opened :
    (n insert x : ℕ) (xs : List ℕ) (j : ℕ)
    → insert ≤ n
    → n < length xs
    → j ≤ n
    → set (shift_up n insert xs) insert x ! j
      ≡ (if ltb j insert then xs ! j else if j == insert then x else xs ! (j - 1))
opened n insert x xs j p q r = ground (
  arith,
  length-shift_up n insert xs,
  get_or-shift_up n insert xs j,
  get_or-set_self (shift_up n insert xs) insert x 0,
  get_or-set_ne (shift_up n insert xs) insert j x 0,
)

module _ (m : ArrayMap) (h : IsMap m) (insert key val : ℕ) (g : IsGap m insert key) where
  abbrev after : ArrayMap
  after = insert_at m insert key val

  after_size : after.cur_size ≡ m.cur_size + 1
  unfolding insert_at
  after_size = omega (arith, g.free, h.width)

  key_cell :
      (j : ℕ)
      → j ≤ m.cur_size
      → after.keys ! j
        ≡ (if ltb j insert then m.keys ! j else if j == insert then key else m.keys ! (j - 1))
  unfolding insert_at
  key_cell j p =
      opened m.cur_size insert key m.keys j g.inside (omega (arith, g.free, h.key_cells)) p

  val_cell :
      (j : ℕ)
      → j ≤ m.cur_size
      → after.vals ! j
        ≡ (if ltb j insert then m.vals ! j else if j == insert then val else m.vals ! (j - 1))
  unfolding insert_at
  val_cell j p =
      opened m.cur_size insert val m.vals j g.inside (omega (arith, g.free, h.val_cells)) p

  after-sorted : (i j : ℕ) → i < j → j < m.cur_size + 1 → after.keys ! i < after.keys ! j
  after-sorted i j p q = ground (
    arith,
    key_cell i (omega arith),
    key_cell j (omega arith),
    h.sorted i j,
    h.sorted i (j - 1),
    h.sorted (i - 1) (j - 1),
    g.below i,
    g.above (j - 1),
  )

  pub after-IsMap : IsMap after
  unfolding insert_at
  after-IsMap = record {
    room = omega (arith, after_size, g.free);
    width = h.width;
    key_cells =
        length-set (shift_up m.cur_size insert m.keys) insert key
        ∙ length-shift_up m.cur_size insert m.keys
        ∙ h.key_cells;
    val_cells =
        length-set (shift_up m.cur_size insert m.vals) insert val
        ∙ length-shift_up m.cur_size insert m.vals
        ∙ h.val_cells;
    sorted = λ i j p q. after-sorted i j p (omega (arith, after_size));
  }

  after-get_new : arraymap_get after key ≡ some val
  after-get_new =
      get_at after after-IsMap key insert (omega (arith, after_size, g.inside))
        (ground (arith, key_cell insert g.inside))
      ∙ ap some (ground (arith, val_cell insert g.inside))

  after-get_old : (i : ℕ) → i < m.cur_size → arraymap_get after (m.keys ! i) ≡ some (m.vals ! i)
  after-get_old i p = elim (dec_lt i insert) [
    | yes low ↦
        get_at after after-IsMap (m.keys ! i) i (omega (arith, after_size))
          (ground (arith, key_cell i (omega arith)))
        ∙ ap some (ground (arith, val_cell i (omega arith)))
    | no high ↦
        get_at after after-IsMap (m.keys ! i) (i + 1) (omega (arith, after_size))
          (ground (arith, key_cell (i + 1) (omega arith)))
        ∙ ap some (ground (arith, val_cell (i + 1) (omega arith)))
  ]

  after-get_absent :
      (j : ℕ)
      → j ≢ key
      → ((i : ℕ) → i < m.cur_size → m.keys ! i ≢ j)
      → arraymap_get after j ≡ some 0
  after-get_absent j n absent = get_absent after after-IsMap j λ i p.
      ground (arith, after_size, key_cell i (omega (arith, after_size)), absent i, absent (i - 1))

  -- What the map answers after the insertion.
  pub after-get : (j : ℕ) → arraymap_get after j ≡ (if j == key then some val else arraymap_get m j)
  after-get j = elim (Bool-cases (j == key)) [
    | inl same ↦ rw (same, (==_iff j key).0 same) after-get_new
    | inr other ↦ rw other (elim (get_cases m h j) [
      | inl (i, p, e, got) ↦
          rw got (subst (λ k. arraymap_get after k ≡ some (m.vals ! i)) e (after-get_old i p))
      | inr absent ↦ rw absent.1 (after-get_absent j (ground arith) absent.0)
    ])
  ]
