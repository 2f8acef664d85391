-- ===== src/Container/Sorted.antt =====
-- What the searches of libebpf/src/hashmap.c find in a sorted array.
use rapid_patch_runtime_ae.Common.{
  ℕ, zero, suc, ◌+◌, ◌-◌, ◌/◌, ◌≤◌, ◌<◌, ◌≡◌, ◌≢◌, ◌⊎◌, inl, inr, arith, refl, List, length, get_or,
  get_elem?-eq-get_or, ltb, ◌==◌, Bool-cases, ltb→lt, ==_iff,
}
use rapid_patch_runtime_ae.Container.Search.{
  Search, found, missing, fault, out_of_fuel, search_loop, binary_search, lower_loop, lower_bound,
}

-- A read for statements; every use stands under a bound on the index.
infixl 90 ◌!◌
abbrev pub ◌!◌ : List ℕ → ℕ → ℕ
a ! i = get_or a i 0

-- The first `n` cells are in strictly ascending order.
abbrev pub IsSorted : List ℕ → ℕ → Type 0
IsSorted a n = (i j : ℕ) → i < j → j < n → a ! i < a ! j

-- An index of `a[lo..hi)` that holds `val`, or none of them does.
abbrev pub Locates : List ℕ → ℕ → ℕ → ℕ → Search → Type 0
Locates a val lo hi (found i) = (lo ≤ i) × (i < hi) × (a ! i ≡ val)
Locates a val lo hi missing = (i : ℕ) → lo ≤ i → i < hi → a ! i ≢ val
Locates a val lo hi fault = ⊥
Locates a val lo hi out_of_fuel = ⊥

module _ (a : List ℕ) (val n : ℕ) (fits : n ≤ length a) (sorted : IsSorted a n) where
  widen_left :
      (lo mid hi : ℕ) (r : Search)
      → lo ≤ mid
      → mid < hi
      → hi ≤ n
      → val < a ! mid
      → Locates a val lo mid r
      → Locates a val lo hi r
  widen_left lo mid hi (found i) p q b c l = (l.0, omega arith, l.2)
  widen_left lo mid hi missing p q b c l = λ i x y. ground (arith, l i, sorted mid i)
  widen_left lo mid hi fault p q b c l = l
  widen_left lo mid hi out_of_fuel p q b c l = l

  widen_right :
      (lo mid hi : ℕ) (r : Search)
      → lo ≤ mid
      → mid < hi
      → hi ≤ n
      → a ! mid < val
      → Locates a val (mid + 1) hi r
      → Locates a val lo hi r
  widen_right lo mid hi (found i) p q b c l = (omega arith, l.1, l.2)
  widen_right lo mid hi missing p q b c l = λ i x y. ground (arith, l i, sorted i mid)
  widen_right lo mid hi fault p q b c l = l
  widen_right lo mid hi out_of_fuel p q b c l = l

  search_loop-Locates :
      (fuel lo hi : ℕ)
      → lo ≤ hi
      → hi ≤ n
      → hi < fuel + lo
      → Locates a val lo hi (search_loop a val fuel lo hi)
  unfolding search_loop
  search_loop-Locates zero lo hi o b f = absurd (omega arith)
  search_loop-Locates (suc fuel) lo hi o b f = elim (Bool-cases (ltb lo hi)) [
    | inr empty ↦ rw (empty, search_loop) (λ i x y. ground arith)
    | inl more ↦
        let mid = (lo + (hi - 1)) / 2 in
        let less : lo < hi = ltb→lt lo hi more in
        rw (more, get_elem?-eq-get_or a mid 0 (omega arith), search_loop)
          (elim (Bool-cases (a ! mid == val)) [
            | inl hit ↦ rw hit (omega arith, omega arith, (==_iff _ _).0 hit)
            | inr miss ↦ rw miss (elim (Bool-cases (ltb val (a ! mid))) [
              | inl above ↦ rw above (
                  widen_left lo mid hi _ (omega arith) (omega arith) b (ltb→lt _ _ above)
                    (search_loop-Locates fuel lo mid (omega arith) (omega arith) (omega arith)))
              | inr below ↦ rw below (
                  widen_right lo mid hi _ (omega arith) (omega arith) b (ground arith)
                    (search_loop-Locates fuel (mid + 1) hi (omega arith) b (omega arith)))
            ])
          ])
  ]

  -- On a sorted array `binary_search` always ends, reads nothing outside of the array, and tells
  -- truly whether the key is there, with an index that holds it.
  pub binary_search-Locates : Locates a val 0 n (binary_search a n val)
  unfolding binary_search
  binary_search-Locates = search_loop-Locates (n + 1) 0 n (omega arith) (omega arith) (omega arith)

-- An index from 1 to n that splits `a[0..n)` at `val`, but for the first cell: if it is 1, the
-- first cell may hold anything.
abbrev pub Splits : List ℕ → ℕ → ℕ → Search → Type 0
Splits a val n (found e) =
    (1 ≤ e)
    × (e ≤ n)
    × ((i : ℕ) → 1 < e → i < e → a ! i < val)
    × ((i : ℕ) → e ≤ i → i < n → val ≤ a ! i)
Splits a val n missing = ⊥
Splits a val n fault = ⊥
Splits a val n out_of_fuel = ⊥

module _ (a : List ℕ) (val n : ℕ) (fits : n ≤ length a) (sorted : IsSorted a n) where
  lower_loop-Splits :
      (fuel start end : ℕ)
      → start < end
      → end ≤ n
      → end < fuel + start
      → (start ≡ 0) ⊎ (a ! start < val)
      → (end ≡ n) ⊎ (val ≤ a ! end)
      → Splits a val n (lower_loop a val fuel start end)
  unfolding lower_loop
  lower_loop-Splits zero start end o b f l r = absurd (omega arith)
  lower_loop-Splits (suc fuel) start end o b f l r = elim (Bool-cases (ltb (start + 1) end)) [
    | inr narrow ↦
        rw (narrow, lower_loop)
          (
            omega arith,
            b,
            (λ i p q. ground (arith, sorted i start)),
            (λ i p q. ground (arith, sorted end i)),
          )
    | inl wide ↦
        let mid = (start + end) / 2 in
        let less : start + 1 < end = ltb→lt (start + 1) end wide in
        rw (wide, get_elem?-eq-get_or a mid 0 (omega arith), lower_loop)
          (elim (Bool-cases (ltb (a ! mid) val)) [
            | inl below ↦ rw below (
                lower_loop-Splits fuel mid end (omega arith) b (omega arith)
                  (inr (ltb→lt _ _ below)) r)
            | inr above ↦ rw above (
                lower_loop-Splits fuel start mid (omega arith) (omega arith) (omega arith) l
                  (inr (ground arith)))
          ])
  ]

  -- On a sorted array that is not empty `lower_bound` always ends, reads nothing outside of the
  -- array, and returns an index from 1 to n with smaller keys before it (if it is not 1) and no
  -- smaller key from it on.
  pub lower_bound-Splits : 0 < n → Splits a val n (lower_bound a n val)
  unfolding lower_bound
  lower_bound-Splits pos =
      lower_loop-Splits (n + 1) 0 n pos (omega arith) (omega arith) (inl refl) (inl refl)
