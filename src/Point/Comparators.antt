-- ===== src/Point/Comparators.antt =====
-- The flash patch and breakpoint unit in hotpatch/src/cortex-m4_fbp.c: its registers, the remap
-- table and `bpkt_info`. An access outside an array is undefined, which is `none`.
use rapid_patch_runtime_ae.Common.{
  ℕ, zero, suc, ◌+◌, ◌-◌, ◌*◌, ◌/◌, ◌%◌, ◌^◌, List, [], ◌∷◌, Option, none, some, Bool, true, leb,
  ◌==◌, ◌||◌, ◌&&◌, if◌then◌else◌, u8, u32, bit_and, bit_or, get_elem?, set,
}
use rapid_patch_runtime_ae.Common.Int.{ℤ, pos, negsuc}
use rapid_patch_runtime_ae.Container.ArrayMap.{write}
use rapid_patch_runtime_ae.Point.Address.{
  even, word_aligned, little_endian_16_bit, comparator, calc_bpkt_pc,
}
use rapid_patch_runtime_ae.Point.Branch.{calc_branch_instr}

-- What the build and the linker fix: the program, the addresses of `FPB_Handler0` to
-- `FPB_Handler5`, and the address of the remap table, aligned up to 32 bytes.
pub record Image : Type 0 where
  pub half : ℕ → ℕ
  pub word : ℕ → ℕ
  pub handlers : List ℕ
  pub patch_tbl : ℕ

-- `COMP` has `MAX_BP` cells. `table` holds the words of `REMAP_ADDR.inst` from `patch_tbl` on.
pub record Fpb : Type 0 where
  pub ctrl : ℕ
  pub remap : ℕ
  pub comp : List ℕ
  pub cur_idx : ℕ
  pub bpkt_num : ℕ
  pub is_init : Bool
  pub active : Bool
  pub table : List ℕ

abbrev pub max_bp : ℕ
max_bp = 6

abbrev pub fpb_cb_reg : ℕ
fpb_cb_reg = 5

unfoldable pub fpb_enable : Fpb → Fpb
fpb_enable u = record u { ctrl = bit_or u.ctrl 0x3 }

unfoldable pub fpb_disable : Fpb → Fpb
fpb_disable u = record u { ctrl = bit_or (word_aligned u.ctrl) 0x2 }

-- The first of the cells from `i` on, `count` of them, that passes the test.
unfoldable pub find_comp : (ℕ → Bool) → ℕ → ℕ → List ℕ → Option ℕ
find_comp p i zero cells = none
find_comp p i (suc count) [] = none
find_comp p i (suc count) (c ∷ cells) =
    let rest = find_comp p (i + 1) count cells in if p c then some i else rest

-- The first index with `a` followed by `b`.
unfoldable pub find_pair : ℕ → ℕ → ℕ → ℕ → List ℕ → Option ℕ
find_pair a b i zero cells = none
find_pair a b i (suc count) [] = none
find_pair a b i (suc count) (c ∷ []) = none
find_pair a b i (suc count) (c ∷ (d ∷ cells)) =
    let rest = find_pair a b (i + 1) count (d ∷ cells) in
    if (c == a) && (d == b) then some i else rest

-- `add_normal_bkpt` and the index that it returns.
unfoldable pub add_normal_bkpt : Fpb → ℕ → Option (Fpb × ℤ)
unfolding find_comp
add_normal_bkpt u inst_addr =
    elim (find_comp (λ c. c == comparator inst_addr) 0 u.bpkt_num u.comp) [
      | some i ↦ some (u, pos i)
      | none ↦ elim (write u.comp u.cur_idx (comparator inst_addr)) [
        | none ↦ none
        | some cells ↦ some (record u { comp = cells; cur_idx = u8 (u.cur_idx + 1) }, pos u.cur_idx)
      ]
    ]

-- The word-aligned case of `add_fpb_bkpt`.
unfoldable pub remap_word : Fpb → ℕ → ℕ → Option (Fpb × ℤ)
unfolding find_comp
remap_word u inst_addr jump_inst =
    let fp_comp = bit_or inst_addr 0x1 in
    elim (find_comp (λ c. (c == fp_comp) || (c == inst_addr)) 0 u.bpkt_num u.comp) [
      | some i ↦ some (record u { comp = set u.comp i fp_comp }, pos i)
      | none ↦ elim (write u.table u.cur_idx jump_inst) [
        | none ↦ none
        | some words ↦ elim (write u.comp u.cur_idx fp_comp) [
          | none ↦ none
          | some cells ↦
              let next = u8 (u.cur_idx + 1) in
              some (record u { table = words; comp = cells; cur_idx = next }, pos next)
        ]
      ]
    ]

abbrev pub write_two : List ℕ → ℕ → ℕ → ℕ → Option (List ℕ)
write_two xs i a b = elim (write xs i a) [ none ↦ none | some ys ↦ write ys (i + 1) b ]

-- The case of an instruction at an odd half-word: the jump is laid over two words.
unfoldable pub remap_halves : Image → Fpb → ℕ → ℕ → Option (Fpb × ℤ)
unfolding find_pair
remap_halves image u inst_addr jump_inst =
    let fp_comp1 = word_aligned inst_addr in
    let fp_comp2 = u32 (word_aligned inst_addr + 4) in
    let first =
      bit_or (bit_and jump_inst 0x0000ffff * 2 ^ 16) (bit_and (image.word fp_comp1) 0x0000ffff) in
    let second =
      bit_or (bit_and (image.word fp_comp2) 0xffff0000) (bit_and jump_inst 0xffff0000 / 2 ^ 16) in
    elim (find_pair fp_comp1 fp_comp2 0 (u.bpkt_num - 1) u.comp) [
      | some i ↦ some (u, pos i)
      | none ↦ elim (write_two u.table u.cur_idx first second) [
        | none ↦ none
        | some words ↦ elim (write_two u.comp u.cur_idx fp_comp1 fp_comp2) [
          | none ↦ none
          | some cells ↦
              let next = u8 (u.cur_idx + 2) in
              some (record u { table = words; comp = cells; cur_idx = next }, pos next)
        ]
      ]
    ]

unfoldable pub add_fpb_bkpt : Image → Fpb → ℕ → Option (Fpb × ℤ)
unfolding remap_word remap_halves
add_fpb_bkpt image u inst_addr = elim (get_elem? image.handlers u.cur_idx) [
  | none ↦ none
  | some trampoline ↦
      let trampoline_addr = word_aligned (u32 (word_aligned trampoline + 3)) in
      let jump_inst = little_endian_16_bit (calc_branch_instr inst_addr trampoline_addr) in
      let addr = even inst_addr in
      if addr % 4 == 0 then remap_word u addr jump_inst else remap_halves image u addr jump_inst
]

-- The first call sets `bpkt_info`.
abbrev pub prepared : Fpb → Fpb
prepared u = if u.is_init then u else record u { cur_idx = 0; bpkt_num = max_bp; is_init = true }

abbrev pub wrapped : Fpb → Fpb
wrapped u = if leb max_bp u.cur_idx then record u { cur_idx = 0 } else u

-- `add_hw_bkpt` with the value that it returns.
unfoldable pub add_hw_bkpt : Image → Fpb → ℕ → Option (Fpb × ℤ)
unfolding add_normal_bkpt add_fpb_bkpt
add_hw_bkpt image u inst_addr =
    if leb 0x20000000 inst_addr
    then some (prepared u, negsuc 0)
    else if (prepared u).active
    then add_fpb_bkpt image (wrapped (prepared u)) inst_addr
    else add_normal_bkpt (wrapped (prepared u)) inst_addr

-- `num_code_comparators`, read from the control register.
unfoldable pub code_comparators : ℕ → ℕ
code_comparators ctrl = bit_or (bit_and (ctrl / 2 ^ 12) 0x7 * 2 ^ 4) (bit_and (ctrl / 2 ^ 4) 0xf)

unfoldable pub clear_cells : ℕ → ℕ → List ℕ → Option (List ℕ)
clear_cells i zero cells = some cells
clear_cells i (suc count) cells = elim (write cells i 0) [
  | none ↦ none
  | some rest ↦ clear_cells (i + 1) count rest
]

unfoldable pub clear_all_hw_bkpt : Fpb → Option Fpb
unfolding clear_cells code_comparators fpb_disable
clear_all_hw_bkpt u = elim (clear_cells 0 (code_comparators u.ctrl) u.comp) [
  | none ↦ none
  | some cells ↦ some (fpb_disable (record u { comp = cells; cur_idx = 0 }))
]

unfoldable pub fpb_remap_init : Fpb → ℕ → Fpb
unfolding fpb_enable
fpb_remap_init u remap_addr = fpb_enable (record u { remap = remap_addr; active = true })

-- `fpb_disable_cur_inst`: from the instruction behind the current one, the next that is
-- word-aligned; `none` also where there is none before the fuel is used up.
unfoldable pub next_word : (ℕ → ℕ) → ℕ → ℕ → Option ℕ
unfolding calc_bpkt_pc
next_word half zero a = none
next_word half (suc fuel) a =
    let rest = next_word half fuel (calc_bpkt_pc half a) in
    if bit_and a 0x3 == 0 then some a else rest

unfoldable pub enable_cell : ℕ → ℕ
enable_cell c = if c == 0 then 0 else bit_or c 1

-- The loop of `fpb_enable_callback` over the first `count` cells.
unfoldable pub enable_cells : ℕ → List ℕ → List ℕ
unfolding enable_cell
enable_cells zero cells = cells
enable_cells (suc count) [] = []
enable_cells (suc count) (c ∷ cells) = enable_cell c ∷ enable_cells count cells

-- `fpb_enable_callback` and the address that it returns.
unfoldable pub fpb_enable_callback : Fpb → Option (Fpb × ℕ)
unfolding enable_cells
fpb_enable_callback u = elim (get_elem? u.comp fpb_cb_reg) [
  | none ↦ none
  | some cur_inst ↦ some (
    record u { comp = set (enable_cells fpb_cb_reg u.comp) fpb_cb_reg (even cur_inst) },
    cur_inst,
  )
]

unfoldable pub fpb_disable_cur_inst : Image → ℕ → Fpb → ℕ → Option Fpb
unfolding next_word calc_bpkt_pc
fpb_disable_cur_inst image fuel u bpkt_idx = elim (get_elem? u.comp bpkt_idx) [
  | none ↦ none
  | some cur_addr ↦ elim (next_word image.half fuel (calc_bpkt_pc image.half cur_addr)) [
    | none ↦ none
    | some next_inst ↦
        let cells = set u.comp fpb_cb_reg (bit_or next_inst 0x1) in
        elim (get_elem? cells bpkt_idx) [
          | none ↦ none
          | some current ↦ elim (get_elem? image.handlers 5) [
            | none ↦ none
            | some handler ↦
                let trampoline_addr = word_aligned (u32 (even handler + 3)) in
                let jump_inst =
                  little_endian_16_bit (calc_branch_instr next_inst trampoline_addr) in
                elim (write u.table fpb_cb_reg jump_inst) [
                  | none ↦ none
                  | some words ↦
                      some (record u { comp = set cells bpkt_idx (even current); table = words })
                ]
          ]
        ]
  ]
]
