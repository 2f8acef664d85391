-- ===== src/Point/Bounds.antt =====
-- `add_hw_bkpt` of hotpatch/src/cortex-m4_fbp.c: where breakpoints go.
use rapid_patch_runtime_ae.Common.{
  ℕ, zero, suc, ◌+◌, ◌-◌, ◌^◌, ◌≤◌, ◌<◌, ◌≡◌, refl, ◌∙◌, get_elem?-lt, arith, List, [], ◌∷◌, some,
  Bool, true, false, leb, ltb, ◌==◌, get_elem?, set, length, Bool-cases, Option-cases, inl, inr,
  length-set, get_elem?-set_self, get_elem?-set_ne, u8, ==_iff,
}
use rapid_patch_runtime_ae.Common.Int.{pos}
use rapid_patch_runtime_ae.Point.Address.{comparator}
use rapid_patch_runtime_ae.Point.Comparators.{
  Image, Fpb, max_bp, find_comp, add_normal_bkpt, add_hw_bkpt, clear_cells, clear_all_hw_bkpt,
  code_comparators, fpb_disable, prepared, wrapped,
}

find_comp_hit :
    (p : ℕ → Bool) (i count : ℕ) (cells : List ℕ) {k : ℕ}
    → find_comp p i count cells ≡ some k
    → (i ≤ k) × (k < i + count) × ((c : ℕ) × (get_elem? cells (k - i) ≡ some c) × (p c ≡ true))
unfolding find_comp
find_comp_hit p i zero cells e = absurd (cc)
find_comp_hit p i (suc count) [] e = absurd (cc)
find_comp_hit p i (suc count) (c ∷ cells) {k} e = elim (Bool-cases (p c)) [
  | inl holds ↦
      let h = rw (holds, find_comp) at e in
      let same : i ≡ k = ground arith in
      let gap : k - i ≡ 0 = omega arith in (omega arith, omega arith, (c, rw gap refl, holds))
  | inr fails ↦
      let (low, high, (d, there, hit)) =
        find_comp_hit p (i + 1) count cells (rw (fails, find_comp) at e) in
      let gap : k - i ≡ suc (k - (i + 1)) = omega arith in
      (omega arith, omega arith, (d, rw gap there, hit))
]

find_comp-some :
    (p : ℕ → Bool) (i count k : ℕ) (cells : List ℕ) (c : ℕ)
    → k < count
    → get_elem? cells k ≡ some c
    → p c ≡ true
    → (j : ℕ) × (find_comp p i count cells ≡ some j)
unfolding find_comp
find_comp-some p i zero k cells c h e hit = absurd (omega arith)
find_comp-some p i (suc count) k [] c h e hit = absurd (cc)
find_comp-some p i (suc count) zero (d ∷ cells) c h e hit =
    let same : d ≡ c = ground arith in (i, rw (same, hit) refl)
find_comp-some p i (suc count) (suc k) (d ∷ cells) c h e hit = elim (Bool-cases (p d)) [
  | inl holds ↦ (i, rw holds refl)
  | inr fails ↦ rw fails (find_comp-some p (i + 1) count k cells c (omega arith) e hit)
]

-- The comparator registers are six and so is their number in `bpkt_info`, once that is set; the
-- running index is a byte.
pub record IsFpb (u : Fpb) : Type 0 where
  pub comp_count : length u.comp ≡ max_bp
  pub num_count : u.is_init ≡ true → u.bpkt_num ≡ max_bp
  pub idx_width : u.cur_idx < 2 ^ 8

-- What every call begins with.
abbrev pub IsReady : Fpb → Type 0
IsReady u =
    (length u.comp ≡ max_bp) × (u.bpkt_num ≡ max_bp) × (u.is_init ≡ true) × (u.cur_idx < max_bp)

ready : (u : Fpb) → IsFpb u → IsReady (wrapped (prepared u))
ready u w = elim (Bool-cases u.is_init) [
  | inl holds ↦ rw holds (elim (Bool-cases (leb max_bp u.cur_idx)) [
    | inl over ↦ rw over (w.comp_count, w.num_count holds, refl, omega arith)
    | inr within ↦ rw within (w.comp_count, w.num_count holds, refl, ground arith)
  ])
  | inr fails ↦ rw fails (w.comp_count, refl, refl, omega arith)
]

active_kept : (u : Fpb) → (wrapped (prepared u)).active ≡ u.active
active_kept u = ground arith

comp_kept : (u : Fpb) → (wrapped (prepared u)).comp ≡ u.comp
comp_kept u = ground arith

-- A breakpoint stands at index `i`.
abbrev pub Armed : Fpb → ℕ → ℕ → Type 0
Armed u i a = get_elem? u.comp i ≡ some (comparator a)

add_normal_bkpt_lem :
    (u : Fpb) (a : ℕ)
    → IsReady u
    → (v : Fpb) × (i : ℕ) × (add_normal_bkpt u a ≡ some (v, pos i))
      × Armed v i a
      × IsFpb v
      × (v.active ≡ u.active)
unfolding add_normal_bkpt
add_normal_bkpt_lem u a (count, num, init, room) =
    elim (Option-cases (find_comp (λ c. c == comparator a) 0 u.bpkt_num u.comp)) [
      | inr (i, e) ↦
          let (low, high, (c, there, hit)) =
            find_comp_hit (λ c. c == comparator a) 0 u.bpkt_num u.comp e in
          let same : c ≡ comparator a = (==_iff c (comparator a)).0 hit in
          let origin : i - 0 ≡ i = omega arith in
          (
            u,
            i,
            rw (e, add_normal_bkpt) refl,
            rw (origin, same) at there,
            record { comp_count = count; num_count = λ _. num; idx_width = omega arith },
            refl,
          )
      | inl e ↦
          let inside : ltb u.cur_idx (length u.comp) ≡ true = ground (arith, count, room) in
          let v = record u {
            comp = set u.comp u.cur_idx (comparator a);
            cur_idx = u8 (u.cur_idx + 1);
          } in
          (
            v,
            u.cur_idx,
            rw (e, inside, add_normal_bkpt) refl,
            get_elem?-set_self u.comp u.cur_idx (comparator a) (omega arith),
            record {
              comp_count = omega (arith, length-set u.comp u.cur_idx (comparator a));
              num_count = λ _. num;
              idx_width = omega arith;
            },
            refl,
          )
    ]

monitor_mode :
    (image : Image) (u : Fpb) (a : ℕ)
    → u.active ≡ false
    → a < 2 ^ 29
    → add_hw_bkpt image u a ≡ add_normal_bkpt (wrapped (prepared u)) a
unfolding add_hw_bkpt
monitor_mode image u a monitor code =
    let low : leb 0x20000000 a ≡ false = ground arith in
    let mode : (prepared u).active ≡ false = ground arith in simp (low, mode) refl

-- In debug monitor mode, a breakpoint on an instruction in the code region is always placed: the
-- register whose index is returned holds the comparator of the instruction, and the registers
-- stay well-formed.
pub add_hw_bkpt_placed :
    (image : Image) (u : Fpb) (a : ℕ)
    → IsFpb u
    → u.active ≡ false
    → a < 2 ^ 29
    → (v : Fpb) × (i : ℕ) × (add_hw_bkpt image u a ≡ some (v, pos i))
      × Armed v i a
      × IsFpb v
      × (v.active ≡ false)
add_hw_bkpt_placed image u a w monitor code =
    let (v, i, e, armed, ok, same) = add_normal_bkpt_lem (wrapped (prepared u)) a (ready u w) in
    (v, i, monitor_mode image u a monitor code ∙ e, armed, ok, same ∙ active_kept u ∙ monitor)

finds-Armed :
    (r : Fpb) (a i : ℕ)
    → IsReady r
    → Armed r i a
    → (j : ℕ) × (add_normal_bkpt r a ≡ some (r, pos j))
unfolding add_normal_bkpt
finds-Armed r a i (count, num, init, room) armed =
    let inside = get_elem?-lt r.comp i armed in
    let (j, e) =
      find_comp-some (λ c. c == comparator a) 0 r.bpkt_num i r.comp (comparator a) (omega arith)
        armed ((==_iff _ (comparator a)).1 refl) in
    (j, rw (e, add_normal_bkpt) refl)

-- Placing again, in debug monitor mode, a breakpoint that stands in some register finds one: no
-- register changes.
add_hw_bkpt_again :
    (image : Image) (u : Fpb) (a i : ℕ)
    → IsFpb u
    → u.active ≡ false
    → a < 2 ^ 29
    → Armed u i a
    → (v : Fpb) × (j : ℕ) × (add_hw_bkpt image u a ≡ some (v, pos j)) × (v.comp ≡ u.comp)
add_hw_bkpt_again image u a i w monitor code armed =
    let r = wrapped (prepared u) in
    let (j, e) = finds-Armed r a i (ready u w) (rw (comp_kept u) armed) in
    (r, j, monitor_mode image u a monitor code ∙ e, comp_kept u)

pub clear_cells_from :
    (i count : ℕ) (cells : List ℕ)
    → i + count ≤ length cells
    → (zs : List ℕ) × (clear_cells i count cells ≡ some zs)
      × (length zs ≡ length cells)
      × ((k : ℕ) → i ≤ k → k < i + count → get_elem? zs k ≡ some 0)
      × ((k : ℕ) → k < i → get_elem? zs k ≡ get_elem? cells k)
unfolding clear_cells
clear_cells_from i zero cells h =
    (cells, refl, refl, λ k low high. absurd (omega arith), λ k low. refl)
clear_cells_from i (suc count) cells h =
    let inside : ltb i (length cells) ≡ true = ground arith in
    let (zs, e, len, zeros, before) =
      clear_cells_from (i + 1) count (set cells i 0) (omega (arith, length-set cells i 0)) in
    (
      zs,
      rw (inside, clear_cells) e,
      len ∙ length-set cells i 0,
      λ k low high. elim (Bool-cases (k == i)) [
        | inl here ↦
            let same : k ≡ i = (==_iff k i).0 here in
            rw same (before i (omega arith) ∙ get_elem?-set_self cells i 0 (omega arith))
        | inr beyond ↦ zeros k (ground arith) (omega arith)
      ],
      λ k low. before k (omega arith) ∙ get_elem?-set_ne cells i k 0 (λ e. omega arith),
    )

-- Clearing all breakpoints, where the control register counts as many code comparators as there
-- are registers, leaves zero in every register and the running index at zero.
pub clear_all_hw_bkpt_zero :
    (u : Fpb)
    → length u.comp ≡ max_bp
    → code_comparators u.ctrl ≡ max_bp
    → (v : Fpb) × (clear_all_hw_bkpt u ≡ some v)
      × (v.cur_idx ≡ 0)
      × ((k : ℕ) → k < max_bp → get_elem? v.comp k ≡ some 0)
unfolding clear_all_hw_bkpt
clear_all_hw_bkpt_zero u count num =
    let (zs, e, len, zeros, before) = clear_cells_from 0 max_bp u.comp (omega arith) in
    (
      fpb_disable (record u { comp = zs; cur_idx = 0 }),
      rw (num, e, clear_all_hw_bkpt) refl,
      refl,
      λ k h. zeros k (omega arith) (omega arith),
    )
