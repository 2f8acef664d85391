-- ===== src/Container/Growing.antt =====
-- `darray` of libebpf/src/hashmap.c: an array of pointers without keys, where NULL marks a free
-- cell. `none` is an access outside the array.
use rapid_patch_runtime_ae.Common.{
  ℕ, zero, suc, ◌+◌, ◌≤◌, ◌<◌, ◌≡◌, ◌≢◌, ◌∙◌, refl, sym, arith, List, [], ◌∷◌, ◌++◌, Option, none,
  some, Bool, true, false, leb, ltb, ◌==◌, if◌then◌else◌, replicate, set, get_or, length,
  length-set, length-append, get_or-set_self, get_or-set_ne, get_or-append, Bool-cases,
  Option-cases, inl, inr,
}
use rapid_patch_runtime_ae.Container.ArrayMap.{map_grow, write}

pub record DArray : Type 0 where
  pub max_size : ℕ
  pub cur_size : ℕ
  pub vals : List ℕ

unfoldable pub darray_new : ℕ → DArray
darray_new initial_size = record {
  max_size = initial_size;
  cur_size = 0;
  vals = replicate initial_size 0;
}

-- The first free cell among the next `count` from `i`.
unfoldable pub free_cell : ℕ → ℕ → List ℕ → Option ℕ
free_cell i zero vals = none
free_cell i (suc count) [] = none
free_cell i (suc count) (v ∷ vals) =
    let later = free_cell (i + 1) count vals in if v == 0 then some i else later

-- What `darray_add` leaves: the index that it returns, the array, and whether that was moved, which
-- frees the object that the caller's pointer refers to.
pub record Added : Type 0 where
  pub idx : ℕ
  pub array : DArray
  pub moved : Bool

-- `tail` is what lies behind the old cells after the reallocation.
unfoldable pub darray_add : List ℕ → DArray → ℕ → Option Added
unfolding free_cell
darray_add tail arr val = elim (free_cell 0 arr.cur_size arr.vals) [
  | some i ↦
      some (record { idx = i; array = record arr { vals = set arr.vals i val }; moved = false })
  | none ↦
      let idx = arr.cur_size in
      let size = arr.cur_size + 1 in
      if leb arr.max_size size
      then elim (write (arr.vals ++ tail) idx val) [
        | none ↦ none
        | some vs ↦ some (record {
          idx = idx;
          array = record { max_size = arr.max_size + map_grow; cur_size = size; vals = vs };
          moved = true;
        })
      ]
      else elim (write arr.vals idx val) [
        | none ↦ none
        | some vs ↦
            some (record {
              idx = idx;
              array = record arr { cur_size = size; vals = vs };
              moved = false;
            })
      ]
]

-- `darray_get`, `darray_set` and `darray_del` at an index that is not negative.
unfoldable pub darray_get : DArray → ℕ → ℕ
darray_get arr key = if ltb key arr.cur_size then get_or arr.vals key 0 else 0

unfoldable pub darray_set : DArray → ℕ → ℕ → DArray
darray_set arr key val =
    if ltb key arr.max_size then record arr { vals = set arr.vals key val } else arr

unfoldable pub darray_del : DArray → ℕ → DArray
darray_del arr key = if ltb key arr.cur_size then record arr { vals = set arr.vals key 0 } else arr

-- The cells are `max_size`, and those in use fit.
pub record IsDArray (arr : DArray) : Type 0 where
  pub cells : length arr.vals ≡ arr.max_size
  pub room : arr.cur_size ≤ arr.max_size

free_cell_hit :
    (i count : ℕ) (vals : List ℕ) {k : ℕ}
    → free_cell i count vals ≡ some k
    → (i ≤ k) × (k < i + count)
unfolding free_cell
free_cell_hit i zero vals e = absurd (cc)
free_cell_hit i (suc count) [] e = absurd (cc)
free_cell_hit i (suc count) (v ∷ vals) {k} e = elim (Bool-cases (v == 0)) [
  | inl empty ↦
      let h = rw (empty, free_cell) at e in
      let same : i ≡ k = ground arith in (omega arith, omega arith)
  | inr used ↦
      let bounds = free_cell_hit (i + 1) count vals (rw (used, free_cell) at e) in
      (omega (arith, bounds.0), omega (arith, bounds.1))
]

-- What a successful addition of `val` leaves.
abbrev pub Adds : DArray → ℕ → Added → Type 0
Adds arr val r =
    (darray_get r.array r.idx ≡ val)
    × ((j : ℕ) → j ≢ r.idx → darray_get r.array j ≡ darray_get arr j)
    × (length r.array.vals ≡ r.array.max_size)
    × (r.array.cur_size ≤ r.array.max_size)

-- The value stands behind those in use, in cells that keep them.
appended :
    (arr : DArray) (val max : ℕ) (cells : List ℕ)
    → ((j : ℕ) → j < arr.cur_size → get_or cells j 0 ≡ get_or arr.vals j 0)
    → arr.cur_size < length cells
    → (j : ℕ)
    → let new : DArray = record {
      max_size = max;
      cur_size = arr.cur_size + 1;
      vals = set cells arr.cur_size val;
    } in
      (darray_get new arr.cur_size ≡ val) × (j ≢ arr.cur_size → darray_get new j ≡ darray_get arr j)
unfolding darray_get
appended arr val max cells kept inside j = (
  (let used : ltb arr.cur_size (arr.cur_size + 1) ≡ true = ground arith in
      rw used (get_or-set_self cells arr.cur_size val 0 inside)),
  λ n. elim (Bool-cases (ltb j arr.cur_size)) [
    | inl old ↦
        let used : ltb j (arr.cur_size + 1) ≡ true = ground arith in
        rw (old, used)
          (get_or-set_ne cells arr.cur_size j val 0 (λ d. n (sym d)) ∙ kept j (ground arith))
    | inr beyond ↦
        let unused : ltb j (arr.cur_size + 1) ≡ false = ground arith in rw (beyond, unused) refl
  ],
)

-- `darray_add` on a well-formed array always succeeds: the value is at the index that it returns,
-- every other index answers as before, and the array is well-formed again.
darray_add-get :
    (tail : List ℕ) (arr : DArray) (val : ℕ)
    → IsDArray arr
    → length tail ≡ map_grow
    → (r : Added) × (darray_add tail arr val ≡ some r) × Adds arr val r
unfolding darray_add darray_get
darray_add-get tail arr val h grown = elim (Option-cases (free_cell 0 arr.cur_size arr.vals)) [
  | inr (i, e) ↦
      let bounds = free_cell_hit 0 arr.cur_size arr.vals e in
      let inside : i < length arr.vals = omega (arith, bounds.1, h.cells, h.room) in
      let used : ltb i arr.cur_size ≡ true = ground (arith, bounds.1) in
      (
        record { idx = i; array = record arr { vals = set arr.vals i val }; moved = false },
        rw (e, darray_add) refl,
        (
          simp used (get_or-set_self arr.vals i val 0 inside),
          λ j n. rw (get_or-set_ne arr.vals i j val 0 (λ d. n (sym d))) refl,
          length-set arr.vals i val ∙ h.cells,
          h.room,
        ),
      )
  | inl e ↦ elim (Bool-cases (leb arr.max_size (arr.cur_size + 1))) [
    | inl full ↦
        let cells = arr.vals ++ tail in
        let size : length cells ≡ arr.max_size + map_grow =
          omega (arith, length-append arr.vals tail, h.cells) in
        let inside : arr.cur_size < length cells = omega (arith, size, h.room) in
        let writes : ltb arr.cur_size (length cells) ≡ true = ground arith in
        let kept = λ (j : ℕ) (q : j < arr.cur_size).
          get_or-append arr.vals tail j 0 (omega (arith, h.cells, h.room)) in
        let max = arr.max_size + map_grow in
        (
          record {
            idx = arr.cur_size;
            array = record {
              max_size = max;
              cur_size = arr.cur_size + 1;
              vals = set cells arr.cur_size val;
            };
            moved = true;
          },
          rw (e, full, writes, darray_add) refl,
          (
            (appended arr val max cells kept inside 0).0,
            λ j. (appended arr val max cells kept inside j).1,
            length-set cells arr.cur_size val ∙ size,
            omega (arith, h.room),
          ),
        )
    | inr space ↦
        let inside : arr.cur_size < length arr.vals = ground (arith, h.cells) in
        let writes : ltb arr.cur_size (length arr.vals) ≡ true = ground arith in
        let kept = λ (j : ℕ) (q : j < arr.cur_size). refl in
        (
          record {
            idx = arr.cur_size;
            array = record arr {
              cur_size = arr.cur_size + 1;
              vals = set arr.vals arr.cur_size val;
            };
            moved = false;
          },
          rw (e, space, writes, darray_add) refl,
          (
            (appended arr val arr.max_size arr.vals kept inside 0).0,
            λ j. (appended arr val arr.max_size arr.vals kept inside j).1,
            length-set arr.vals arr.cur_size val ∙ h.cells,
            ground arith,
          ),
        )
  ]
]
