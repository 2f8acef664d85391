-- ===== src/Jit/Encode/Moves.antt =====
-- libebpf/src/jit_thumb2.h: moves, comparisons, pushes and pops, and the prefix for conditions.
use rapid_patch_runtime_ae.Common.{ℕ, u16}
use rapid_patch_runtime_ae.Jit.CInt.{◌∣◌, ◌&◌, ◌<<◌, ◌>>◌}

unfoldable pub it_t1 : ℕ → ℕ → ℕ
it_t1 cond mask = u16 (0xbf00 ∣ cond << 4 ∣ mask)

unfoldable pub cmp_reg_t1 : ℕ → ℕ → ℕ
cmp_reg_t1 rn rm = u16 (0x4280 ∣ rm << 3 ∣ rn)

unfoldable pub cmp_reg_t2 : ℕ → ℕ → ℕ
cmp_reg_t2 rn rm =
    let n = u16 ((rn & 0x8) >> 3) in
    let rn3 = u16 (rn & 0x7) in u16 (0x4500 ∣ n << 7 ∣ rm << 3 ∣ rn3)

unfoldable pub cmpw_reg_t3 : ℕ → ℕ → ℕ → ℕ → ℕ
cmpw_reg_t3 rn rm off_imm5 srtype =
    let imm3 = off_imm5 >> 2 & 0x7 in
    let imm2 = off_imm5 & 0x3 in 0xebb00f00 ∣ rn << 16 ∣ imm3 << 12 ∣ imm2 << 6 ∣ srtype << 4 ∣ rm

unfoldable pub mov_reg_t1 : ℕ → ℕ → ℕ
mov_reg_t1 rd rm =
    let d = u16 (rd >> 3 & 0x1) in let rd3 = u16 (rd & 0x7) in u16 (0x4600 ∣ d << 7 ∣ rm << 3 ∣ rd3)

unfoldable pub movs_reg_t2 : ℕ → ℕ → ℕ
movs_reg_t2 rd rm = u16 (0x0000 ∣ rm << 3 ∣ rd)

unfoldable pub movw_reg_t3 : ℕ → ℕ → ℕ → ℕ
movw_reg_t3 rd rm flag_s = 0xea4f0000 ∣ flag_s << 20 ∣ rd << 8 ∣ rm

unfoldable pub push_t1 : ℕ → ℕ
push_t1 reg_mask =
    let m = u16 (reg_mask >> 14 & 0x1) in
    let reg_list = u16 (reg_mask & 0xff) in u16 (0xb400 ∣ m << 8 ∣ reg_list)

unfoldable pub pushw_t2 : ℕ → ℕ
pushw_t2 reg_mask =
    let m = reg_mask >> 14 & 0x1 in
    let reg_list = reg_mask & 0x1fff in 0xe92d0000 ∣ m << 14 ∣ reg_list

unfoldable pub popw_t2 : ℕ → ℕ
popw_t2 reg_mask =
    let m = reg_mask >> 14 & 0x1 in
    let p = reg_mask >> 15 & 0x1 in
    let reg_list = reg_mask & 0x1fff in 0xe8bd0000 ∣ p << 15 ∣ m << 14 ∣ reg_list

-- `CALLEE_PUSH_MASK` and `CALLEE_POP_MASK`: r4 to r9 and r11, with lr or with pc.
unfoldable pub callee_mask : ℕ
callee_mask = 1 << 4 ∣ 1 << 5 ∣ 1 << 6 ∣ 1 << 7 ∣ 1 << 8 ∣ 1 << 9 ∣ 1 << 11

unfoldable pub callee_push_mask : ℕ
callee_push_mask = callee_mask ∣ 1 << 14

unfoldable pub callee_pop_mask : ℕ
callee_pop_mask = callee_mask ∣ 1 << 15
