-- ===== src/Container/Shifts.antt =====
-- The loops of libebpf/src/hashmap.c that open and close a gap in an array, cell by cell.
use rapid_patch_runtime_ae.Common.{
  ℕ, zero, suc, ◌+◌, ◌-◌, ◌≤◌, ◌<◌, ◌≡◌, refl, arith, List, get_or, set, length, length-set,
  get_or-set_self, get_or-set_ne, ltb, leb, ◌&&◌, if◌then◌else◌,
}
use rapid_patch_runtime_ae.Container.ArrayMap.{shift_up, shift_down}

pub length-shift_up : (n insert : ℕ) (xs : List ℕ) → length (shift_up n insert xs) ≡ length xs
unfolding shift_up
length-shift_up zero insert xs = refl
length-shift_up (suc i) insert xs =
    let v = get_or xs i 0 in
    ground (arith, length-shift_up i insert (set xs (suc i) v), length-set xs (suc i) v)

pub get_or-shift_up :
    (n insert : ℕ) (xs : List ℕ) (j : ℕ)
    → insert ≤ n
    → n < length xs
    → get_or (shift_up n insert xs) j 0
      ≡ (if ltb insert j && leb j n then get_or xs (j - 1) 0 else get_or xs j 0)
unfolding shift_up
get_or-shift_up zero insert xs j p q = ground arith
get_or-shift_up (suc i) insert xs j p q =
    let v = get_or xs i 0 in
    let ys = set xs (suc i) v in
    ground (
      arith,
      get_or-shift_up i insert ys j,
      length-set xs (suc i) v,
      get_or-set_self xs (suc i) v 0,
      get_or-set_ne xs (suc i) j v 0,
      get_or-set_ne xs (suc i) (j - 1) v 0,
    )

pub length-shift_down : (count i : ℕ) (xs : List ℕ) → length (shift_down count i xs) ≡ length xs
unfolding shift_down
length-shift_down zero i xs = refl
length-shift_down (suc count) i xs =
    let v = get_or xs (i + 1) 0 in
    omega (arith, length-shift_down count (i + 1) (set xs i v), length-set xs i v)

pub get_or-shift_down :
    (count i : ℕ) (xs : List ℕ) (j : ℕ)
    → i + count ≤ length xs
    → j + 1 < length xs
    → get_or (shift_down count i xs) j 0
      ≡ (if leb i j && ltb j (i + count) then get_or xs (j + 1) 0 else get_or xs j 0)
unfolding shift_down
get_or-shift_down zero i xs j p q = ground arith
get_or-shift_down (suc count) i xs j p q =
    let v = get_or xs (i + 1) 0 in
    let ys = set xs i v in
    ground (
      arith,
      get_or-shift_down count (i + 1) ys j,
      length-set xs i v,
      get_or-set_self xs i v 0,
      get_or-set_ne xs i j v 0,
      get_or-set_ne xs i (j + 1) v 0,
    )
