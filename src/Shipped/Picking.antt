-- ===== src/Shipped/Picking.antt =====
-- The check of the number of a program in hotpatch/src/dynamic_patch_load.c and fixed_patch_load.c.
use rapid_patch_runtime_ae.Common.{
  ℕ, zero, suc, ◌≡◌, ◌≤◌, ◌<◌, ◌^◌, ◌⊎◌, ◌↔◌, refl, arith, List, [], ◌∷◌, Option, none, some, Bool,
  true, false, ltb, Bool-cases, inl, inr, length, get_elem?,
}
use rapid_patch_runtime_ae.Shipped.Loader.{LocalPatch, pick_local}

abbrev is_none {ℓ} : {A : Type ℓ} → Option A → Bool
is_none none = true
is_none (some a) = false

get_elem?-inside :
    (list : List LocalPatch) (i : ℕ)
    → i < length list
    → (pt : LocalPatch) × (get_elem? list i ≡ some pt)
get_elem?-inside [] i h = absurd (omega arith)
get_elem?-inside (pt ∷ list) zero h = (pt, refl)
get_elem?-inside (pt ∷ list) (suc i) h = get_elem?-inside list i (omega arith)

get_elem?-behind : (list : List LocalPatch) → get_elem? list (length list) ≡ none
get_elem?-behind [] = refl
get_elem?-behind (pt ∷ list) = get_elem?-behind list

-- For every list of fewer than 2^31 programs and every 32 bit number: what is read lies outside the
-- list exactly for the list's length and for the numbers that are negative as an `int`.
pub pick_local-none :
    (list : List LocalPatch) (pid : ℕ)
    → length list < 2 ^ 31
    → pid < 2 ^ 32
    → (pick_local list pid ≡ none) ↔ ((pid ≡ length list) ⊎ (2 ^ 31 ≤ pid))
unfolding pick_local
pick_local-none list pid short word = elim (Bool-cases (ltb pid (2 ^ 31))) [
  | inr negative ↦
      let high : 2 ^ 31 ≤ pid = ground arith in (λ e. inr high, λ e. rw (negative) refl)
  | inl positive ↦ elim (Bool-cases (ltb (length list) pid)) [
    | inl over ↦ (λ e. let x = rw (positive, over) at e in absurd (cc), λ e. absurd (ground arith))
    | inr under ↦ elim (Bool-cases (ltb pid (length list))) [
      | inl inside ↦
          let low : pid < length list = ground arith in
          let (pt, found) = get_elem?-inside list pid low in
          (
            λ e. let x = rw (positive, under, found) at e in absurd (cc),
            λ e. elim e [ inl same ↦ absurd (omega arith) | inr high ↦ absurd (ground arith) ],
          )
      | inr outside ↦
          let same : pid ≡ length list = ground arith in
          let behind : get_elem? list pid ≡ none = rw same (get_elem?-behind list) in
          (λ e. inl same, λ e. rw (positive, under, behind) refl)
    ]
  ]
]
