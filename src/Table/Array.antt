-- ===== src/Table/Array.antt =====
-- `DArray` of libebpf/src/ebpf_map.c: an array of pointers, where `none` in a cell is NULL.
use rapid_patch_runtime_ae.Common.{
  ℕ, ◌+◌, ◌-◌, List, Option, none, some, ltb, leb, if◌then◌else◌, length, set, get_or, replicate,
}

-- `contents` has `max` cells. The size of an element is stored and not used.
pub record Cells {ℓ} (A : Type ℓ) : Type ℓ where
  pub end : ℕ
  pub max : ℕ
  pub contents : List (Option A)

module _ {ℓ} {A : Type ℓ} where
  unfoldable pub array_create : ℕ → Cells A
  array_create initial_max = record {
    end = 0;
    max = initial_max;
    contents = replicate initial_max none;
  }

  unfoldable pub array_set : Cells A → ℕ → Option A → Cells A
  array_set arr index val = if leb arr.max index then arr else record arr {
    end = if ltb arr.end index then index else arr.end;
    contents = set arr.contents index val;
  }

  unfoldable pub array_get : Cells A → ℕ → Option A
  array_get arr index = if ltb index arr.max then get_or arr.contents index none else none

  -- The write is not guarded; behind the cells it is undefined.
  unfoldable pub array_push : Cells A → A → Option (Cells A)
  array_push arr el =
      if ltb arr.end (length arr.contents)
      then some (record arr { end = arr.end + 1; contents = set arr.contents arr.end (some el) })
      else none

  unfoldable pub array_pop : Cells A → Cells A × Option A
  array_pop arr =
      if ltb 0 arr.end
      then (
        record arr { end = arr.end - 1; contents = set arr.contents (arr.end - 1) none },
        get_or arr.contents (arr.end - 1) none,
      )
      else (arr, none)
