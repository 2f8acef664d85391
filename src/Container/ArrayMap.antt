-- ===== src/Container/ArrayMap.antt =====
-- `arraymap` of libebpf/src/hashmap.c: two parallel arrays, the keys in ascending order. Pointers
-- are 32-bit numbers and 0 is NULL.
use rapid_patch_runtime_ae.Common.{
  ℕ, zero, suc, ◌+◌, ◌-◌, List, ◌++◌, Option, none, some, ltb, leb, ◌==◌, if◌then◌else◌, get_or,
  set, length, u16,
}
use rapid_patch_runtime_ae.Container.Search.{found, missing, binary_search, lower_bound}

-- `keys` and `vals` are the allocated arrays, `max_size` cells each.
pub record ArrayMap : Type 0 where
  pub max_size : ℕ
  pub cur_size : ℕ
  pub keys : List ℕ
  pub vals : List ℕ

-- What the program finds in memory that it did not write: the words behind the old contents after
-- the arrays have grown.
pub record Slack : Type 0 where
  pub tail_keys : List ℕ
  pub tail_vals : List ℕ

abbrev pub map_grow : ℕ
map_grow = 4

-- `arraymap_new`; the two lists are what `malloc` returns.
unfoldable pub arraymap_new : ℕ → List ℕ → List ℕ → ArrayMap
arraymap_new initial_size fresh_keys fresh_vals = record {
  max_size = u16 initial_size;
  cur_size = 0;
  keys = fresh_keys;
  vals = fresh_vals;
}

-- A write outside of an array is undefined.
abbrev pub write : List ℕ → ℕ → ℕ → Option (List ℕ)
write xs i v = if ltb i (length xs) then some (set xs i v) else none

-- `for (int i = n; i > insert; i--) xs[i] = xs[i - 1];`
unfoldable pub shift_up : ℕ → ℕ → List ℕ → List ℕ
shift_up zero insert xs = xs
shift_up (suc i) insert xs =
    let rest = shift_up i insert (set xs (suc i) (get_or xs i 0)) in
    if ltb insert (suc i) then rest else xs

-- `for (int i = idx; i < cur_size; i++) xs[i] = xs[i + 1];` with `count` rounds left, inside the
-- array.
unfoldable pub shift_down : ℕ → ℕ → List ℕ → List ℕ
shift_down zero i xs = xs
shift_down (suc count) i xs = shift_down count (i + 1) (set xs i (get_or xs (i + 1) 0))

-- The reallocation of both arrays. It copies two words more than the old arrays have; those and
-- the rest of the new cells hold what was there.
unfoldable pub grow : Slack → ArrayMap → ArrayMap
grow sl m = record m {
  max_size = u16 (m.max_size + map_grow);
  keys = m.keys ++ sl.tail_keys;
  vals = m.vals ++ sl.tail_vals;
}

unfoldable pub insert_at : ArrayMap → ℕ → ℕ → ℕ → ArrayMap
unfolding shift_up
insert_at m insert key val = record m {
  keys = set (shift_up m.cur_size insert m.keys) insert key;
  vals = set (shift_up m.cur_size insert m.vals) insert val;
  cur_size = u16 (m.cur_size + 1);
}

-- The rest of `arraymap_set` once `insert` is known: the key there is read before the size is
-- compared with the capacity, so that the read may fall behind the keys in use, or past the array,
-- which is undefined.
unfoldable pub set_at : Slack → ArrayMap → ℕ → ℕ → ℕ → Option ArrayMap
unfolding grow insert_at
set_at sl m insert key val =
    if leb (length m.keys) insert
    then none
    else if get_or m.keys insert 0 == key
    then elim (write m.vals insert val) [ none ↦ none | some vs ↦ some (record m { vals = vs }) ]
    else if leb m.max_size m.cur_size
    then some (insert_at (grow sl m) insert key val)
    else some (insert_at m insert key val)

unfoldable pub set_first : ArrayMap → ℕ → ℕ → Option ArrayMap
set_first m key val = elim (write m.keys 0 key) [
  | none ↦ none
  | some ks ↦ elim (write m.vals 0 val) [
    | none ↦ none
    | some vs ↦ some (record m { keys = ks; vals = vs; cur_size = 1 })
  ]
]

-- `arraymap_set`. `none` is undefined behaviour, here and below.
unfoldable pub arraymap_set : Slack → ArrayMap → ℕ → ℕ → Option ArrayMap
unfolding set_at set_first lower_bound
arraymap_set sl m key val =
    if m.cur_size == 0 then set_first m key val else elim (lower_bound m.keys m.cur_size key) [
      | found insert ↦ set_at sl m insert key val
      | _ ↦ none
    ]

unfoldable pub arraymap_get : ArrayMap → ℕ → Option ℕ
unfolding binary_search
arraymap_get m key = elim (binary_search m.keys m.cur_size key) [
  | found i ↦ some (get_or m.vals i 0)
  | missing ↦ some 0
  | _ ↦ none
]

unfoldable pub remove_at : ArrayMap → ℕ → ArrayMap
unfolding shift_down
remove_at m idx = record m {
  keys = set (shift_down (m.cur_size - idx) idx m.keys) (m.cur_size - 1) 0;
  vals = set (shift_down (m.cur_size - idx) idx m.vals) (m.cur_size - 1) 0;
  cur_size = m.cur_size - 1;
}

-- The last round of the loops reads the cell `cur_size`, which a full array does not have.
unfoldable pub arraymap_del : ArrayMap → ℕ → Option ArrayMap
unfolding binary_search remove_at
arraymap_del m key = elim (binary_search m.keys m.cur_size key) [
  | found idx ↦ if leb (length m.keys) m.cur_size then none else some (remove_at m idx)
  | missing ↦ some m
  | _ ↦ none
]

-- `arraymap_iter_key` and `arraymap_iter_val` at an index that is not negative.
unfoldable pub arraymap_iter_key : ArrayMap → ℕ → ℕ
arraymap_iter_key m i = if leb m.cur_size i then 0 else get_or m.keys i 0

unfoldable pub arraymap_iter_val : ArrayMap → ℕ → ℕ
arraymap_iter_val m i = if leb m.cur_size i then 0 else get_or m.vals i 0
