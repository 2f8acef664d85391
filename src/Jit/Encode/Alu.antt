-- ===== src/Jit/Encode/Alu.antt =====
-- libebpf/src/jit_thumb2.h: arithmetic, logic and shifts.
use rapid_patch_runtime_ae.Common.{ℕ, ◌-◌, ◌^◌, ◌||◌, u16, if◌then◌else◌}
use rapid_patch_runtime_ae.Jit.CInt.{◌∣◌, ◌&◌, ◌<<◌, ◌>>◌, is_negative, s_lt}

unfoldable pub umull_t2 : ℕ → ℕ → ℕ → ℕ → ℕ
umull_t2 rd_lo rd_hi rn rm = 0xfba00000 ∣ rn << 16 ∣ rd_lo << 12 ∣ rd_hi << 8 ∣ rm

unfoldable pub mul_t2 : ℕ → ℕ → ℕ → ℕ
mul_t2 rd rn rm = 0xfb00f000 ∣ rn << 16 ∣ rd << 8 ∣ rm

unfoldable pub rsbw_imm_t2 : ℕ → ℕ → ℕ → ℕ → ℕ
rsbw_imm_t2 rd rn shift_imm12 flag_s =
    let i = shift_imm12 >> 11 & 0x1 in
    let imm3 = shift_imm12 >> 8 & 0x7 in
    let imm8 = shift_imm12 & 0xff in
    0xf1c00000 ∣ i << 26 ∣ flag_s << 20 ∣ rn << 16 ∣ imm3 << 12 ∣ rd << 8 ∣ imm8

unfoldable pub rsbw_reg_t1 : ℕ → ℕ → ℕ → ℕ → ℕ → ℕ → ℕ
rsbw_reg_t1 rd rn rm shift_imm5 srtype flag_s =
    let imm3 = shift_imm5 >> 2 & 0x7 in
    let imm2 = shift_imm5 & 0x3 in
    0xebc00000 ∣ flag_s << 20 ∣ rn << 16 ∣ imm3 << 12 ∣ rd << 8 ∣ imm2 << 6 ∣ srtype << 4 ∣ rm

unfoldable pub sbcw_t2 : ℕ → ℕ → ℕ → ℕ → ℕ → ℕ → ℕ
sbcw_t2 rd rn rm shift_imm5 srtype flag_s =
    let imm3 = shift_imm5 >> 2 & 0x7 in
    let imm2 = shift_imm5 & 0x3 in
    0xeb600000 ∣ flag_s << 20 ∣ rn << 16 ∣ imm3 << 12 ∣ rd << 8 ∣ imm2 << 6 ∣ srtype << 4 ∣ rm

unfoldable pub mul_reg_t2 : ℕ → ℕ → ℕ → ℕ
mul_reg_t2 rd rn rm = 0xfb00f000 ∣ rn << 16 ∣ rd << 8 ∣ rm

unfoldable pub add_imm_t2 : ℕ → ℕ → ℕ
add_imm_t2 rdn imm8 = let imm = u16 (imm8 & 0xff) in u16 (0x3000 ∣ rdn << 8 ∣ imm)

unfoldable pub add_imm_t4 : ℕ → ℕ → ℕ → ℕ
add_imm_t4 rd rn imm12 =
    let i = imm12 >> 11 & 0x1 in
    let imm3 = imm12 >> 8 & 0x7 in
    let imm8 = imm12 & 0xff in 0xf2000000 ∣ i << 26 ∣ rn << 16 ∣ imm3 << 12 ∣ rd << 8 ∣ imm8

unfoldable pub add_reg_t2 : ℕ → ℕ → ℕ
add_reg_t2 rdn rm =
    let dn = u16 (rdn >> 3 & 0x1) in
    let rdn3 = u16 (rdn & 0x7) in u16 (0x4400 ∣ dn << 7 ∣ rm << 3 ∣ rdn3)

unfoldable pub addw_reg_t3 : ℕ → ℕ → ℕ → ℕ → ℕ → ℕ → ℕ
addw_reg_t3 rd rn rm off_imm5 srtype flag_s =
    let imm3 = off_imm5 >> 2 & 0x7 in
    let imm2 = off_imm5 & 0x3 in
    0xeb000000 ∣ flag_s << 20 ∣ rn << 16 ∣ imm3 << 12 ∣ rd << 8 ∣ imm2 << 6 ∣ srtype << 4 ∣ rm

unfoldable pub and_reg_t1 : ℕ → ℕ → ℕ
and_reg_t1 rdn rm = u16 (0x4000 ∣ rm << 3 ∣ rdn)

unfoldable pub and_reg_t2 : ℕ → ℕ → ℕ → ℕ → ℕ → ℕ → ℕ
and_reg_t2 rd rn rm off_imm5 srtype flag_s =
    let imm3 = off_imm5 >> 2 & 0x7 in
    let imm2 = off_imm5 & 0x3 in
    0xea000000 ∣ flag_s << 20 ∣ rn << 16 ∣ imm3 << 12 ∣ rd << 8 ∣ imm2 << 6 ∣ srtype << 4 ∣ rm

unfoldable pub sub_imm_t1 : ℕ → ℕ → ℕ → ℕ
sub_imm_t1 rd3 rn3 imm3 = u16 (0x1e00 ∣ (imm3 & 0x7) << 6 ∣ rn3 << 3 ∣ rd3)

unfoldable pub sub_imm_t2 : ℕ → ℕ → ℕ
sub_imm_t2 rdn3 imm8 = u16 (0x3800 ∣ rdn3 << 8 ∣ (imm8 & 0xff))

unfoldable pub subw_imm_t4 : ℕ → ℕ → ℕ → ℕ → ℕ
subw_imm_t4 rd rn imm12 flag_s =
    let i = imm12 >> 11 & 0x1 in
    let imm3 = imm12 >> 8 & 0x3 in
    let imm8 = imm12 & 0xff in 0xf2a00000 ∣ i << 26 ∣ rn << 16 ∣ imm3 << 12 ∣ rd << 8 ∣ imm8

unfoldable pub sub_reg_t1 : ℕ → ℕ → ℕ → ℕ
sub_reg_t1 rd rn rm = u16 (0x1a00 ∣ rm << 6 ∣ rn << 3 ∣ rd)

unfoldable pub sub_reg_t2 : ℕ → ℕ → ℕ → ℕ → ℕ → ℕ → ℕ
sub_reg_t2 rd rn rm shift_off5 srtype flag_s =
    let imm3 = shift_off5 >> 2 & 0x7 in
    let imm2 = shift_off5 & 0x3 in
    0xeba00000 ∣ flag_s << 20 ∣ rn << 16 ∣ imm3 << 12 ∣ rd << 8 ∣ imm2 << 6 ∣ srtype << 4 ∣ rm

unfoldable pub asrw_imm_t2 : ℕ → ℕ → ℕ → ℕ → ℕ
asrw_imm_t2 rd rm imm5 flag_s =
    let imm3 = imm5 >> 2 & 0x7 in
    let imm2 = imm5 & 0x3 in 0xea4f0020 ∣ flag_s << 20 ∣ imm3 << 12 ∣ rd << 8 ∣ imm2 << 6 ∣ rm

unfoldable pub asrw_reg_t2 : ℕ → ℕ → ℕ → ℕ → ℕ
asrw_reg_t2 rd rn rm flag_s = 0xfa40f000 ∣ flag_s << 20 ∣ rn << 16 ∣ rd << 8 ∣ rm

unfoldable pub lslw_reg_t2 : ℕ → ℕ → ℕ → ℕ → ℕ
lslw_reg_t2 rd rn rm flag_s = 0xfa00f000 ∣ flag_s << 20 ∣ rn << 16 ∣ rd << 8 ∣ rm

unfoldable pub lsrw_reg_t2 : ℕ → ℕ → ℕ → ℕ → ℕ
lsrw_reg_t2 rd rn rm flag_s = 0xfa20f000 ∣ flag_s << 20 ∣ rn << 16 ∣ rd << 8 ∣ rm

unfoldable pub lsrw_imm_t2 : ℕ → ℕ → ℕ → ℕ → ℕ
lsrw_imm_t2 rd rm shift_imm5 flag_s =
    if is_negative shift_imm5 || s_lt 0x1f shift_imm5
    then 2 ^ 32 - 1
    else (let imm3 = shift_imm5 >> 2 & 0x7 in
        let imm2 = shift_imm5 & 0x3 in
        0xea4f0010 ∣ flag_s << 20 ∣ imm3 << 12 ∣ rd << 8 ∣ imm2 << 6 ∣ rm)

unfoldable pub orr_reg_t1 : ℕ → ℕ → ℕ
orr_reg_t1 rdn rm =
    let rdn3 = u16 (rdn & 0x7) in let rm3 = u16 (rm & 0x7) in u16 (0x4300 ∣ rdn3 << 4 ∣ rm3)

unfoldable pub eor_reg_t2 : ℕ → ℕ → ℕ → ℕ → ℕ → ℕ → ℕ
eor_reg_t2 rd rn rm shift_imm5 srtype flag_s =
    let imm3 = shift_imm5 >> 2 & 0x7 in
    let imm2 = shift_imm5 & 0x3 in
    0xea800000 ∣ flag_s << 20 ∣ rn << 16 ∣ imm3 << 12 ∣ rd << 8 ∣ imm2 << 6 ∣ srtype << 4 ∣ rm

unfoldable pub orrw_reg_t2 : ℕ → ℕ → ℕ → ℕ → ℕ → ℕ → ℕ
orrw_reg_t2 rd rn rm shift_imm5 srtype flag_s =
    if is_negative shift_imm5 || s_lt 0x1f shift_imm5
    then 2 ^ 32 - 1
    else (let imm3 = shift_imm5 >> 2 & 0x7 in
        let imm2 = shift_imm5 & 0x3 in
        0xea400000 ∣ flag_s << 20 ∣ rn << 16 ∣ imm3 << 12 ∣ rd << 8 ∣ imm2 << 6 ∣ srtype << 4 ∣ rm)
