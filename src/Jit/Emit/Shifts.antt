-- ===== src/Jit/Emit/Shifts.antt =====
-- libebpf/src/jit_thumb2.c: the shifts of 64-bit registers.
use rapid_patch_runtime_ae.Common.{ℕ, ◌-◌, [], ◌++◌, ◌==◌, if◌then◌else◌, ltb, u16}
use rapid_patch_runtime_ae.Jit.CInt.{◌∣◌, ◌&◌, ◌<<◌, ◌>>◌}
use rapid_patch_runtime_ae.Jit.Encode.Alu.{
  rsbw_imm_t2, subw_imm_t4, lsrw_reg_t2, lslw_reg_t2, asrw_reg_t2, orrw_reg_t2, lsrw_imm_t2,
  asrw_imm_t2,
}
use rapid_patch_runtime_ae.Jit.Encode.Moves.{it_t1}
use rapid_patch_runtime_ae.Jit.Encode.Memory.{RegPair}
use rapid_patch_runtime_ae.Jit.Emit.Registers.{
  Code, emit2, emit4, arm_ip, arm_lr, tmp_reg_1, tmp_reg_2,
}
use rapid_patch_runtime_ae.Jit.Emit.Moves.{
  arm_bpf_get_reg32, arm_bpf_put_reg32, arm_bpf_get_reg64, arm_bpf_put_reg64, emit_mov_imm,
  emit_mov_reg,
}

-- The constant 32 in the fields `i:imm3:imm8` leaves the first two empty.
unfoldable pub emit_lsh64_reg : RegPair → RegPair → Code
emit_lsh64_reg dst src =
    let rt = arm_bpf_get_reg32 src.lo tmp_reg_2.lo in
    let rd = arm_bpf_get_reg64 dst tmp_reg_1 in
    let tmp = tmp_reg_2.hi in
    let i = 32 >> 11 & 0x1 in
    let imm3 = 32 >> 8 & 0x7 in
    let imm8 = 32 & 0xff in
    rt.code
    ++ (rd.code
        ++ (emit4 (0xf1a00000 ∣ i << 26 ∣ rt.at << 16 ∣ imm3 << 12 ∣ arm_ip << 8 ∣ imm8)
            ++ (emit4 (0xfa00f000 ∣ rd.at.hi << 16 ∣ tmp << 8 ∣ rt.at)
                ++ (emit4 (0xfa00f000 ∣ rd.at.lo << 16 ∣ arm_ip << 8 ∣ arm_ip)
                    ++ (emit4 (0xea400000 ∣ tmp << 16 ∣ arm_ip << 8 ∣ arm_ip)
                        ++ (emit4
                              (0xf1c00000 ∣ i << 26 ∣ rt.at << 16 ∣ imm3 << 12 ∣ tmp << 8 ∣ imm8)
                            ++ (emit4 (0xfa00f000 ∣ rd.at.lo << 16 ∣ tmp << 8 ∣ tmp)
                                ++ (emit4 (0xea400000 ∣ tmp << 16 ∣ arm_ip << 8 ∣ arm_ip)
                                    ++ (emit4 (0xfa00f000 ∣ rd.at.lo << 16 ∣ tmp << 8 ∣ rt.at)
                                        ++ (arm_bpf_put_reg32 dst.lo tmp
                                            ++ arm_bpf_put_reg32 dst.hi arm_ip))))))))))

unfoldable pub emit_lsh64_imm : RegPair → ℕ → Code
emit_lsh64_imm dst imm =
    let val = u16 imm in
    let rd = arm_bpf_get_reg64 dst tmp_reg_1 in
    let tmp = tmp_reg_2.hi in
    let back = 32 - val in
    rd.code
    ++ ((if ltb val 32
          then emit4
              (0xea5f0000 ∣ ((val & 0x1c) >> 2) << 12 ∣ tmp << 8 ∣ (val & 0x3) << 4 ∣ rd.at.hi)
            ++ (emit4 (
                  0xea500010
                  ∣ tmp << 16
                  ∣ ((back & 0x1c) >> 2) << 12
                  ∣ rd.at.hi << 8
                  ∣ (back & 0x3) << 6
                  ∣ rd.at.lo)
                ++ emit2 (0x0000 ∣ val << 6 ∣ rd.at.lo << 3 ∣ rd.at.lo))
          else (if val == 32
              then emit_mov_reg rd.at.lo rd.at.hi
              else emit2 (0x0000 ∣ (val - 32) << 6 ∣ rd.at.lo << 3 ∣ rd.at.hi))
            ++ emit2 (0x4040 ∣ rd.at.lo << 3 ∣ rd.at.lo))
        ++ arm_bpf_put_reg64 dst rd.at)

unfoldable pub emit_a32_rsh_r64 : RegPair → RegPair → Code
emit_a32_rsh_r64 dst src =
    let rt = arm_bpf_get_reg32 src.lo tmp_reg_2.lo in
    let rd = arm_bpf_get_reg64 dst tmp_reg_1 in
    let tmp = tmp_reg_2.hi in
    let high = rd.at.hi in
    rt.code
    ++ (rd.code
        ++ (emit4 (rsbw_imm_t2 arm_ip rt.at 32 1)
            ++ (emit4 (subw_imm_t4 tmp rt.at 32 1)
                ++ (emit4 (lsrw_reg_t2 arm_lr rd.at.lo rt.at 1)
                    ++ (emit4 (lslw_reg_t2 high high arm_ip 1)
                        ++ (emit4 (orrw_reg_t2 arm_lr arm_lr high 0 0 1)
                            ++ (emit4 (lsrw_reg_t2 high high tmp 1)
                                ++ (emit4 (orrw_reg_t2 arm_lr arm_lr high 0 0 1)
                                    ++ (emit4 (lsrw_reg_t2 arm_ip high rt.at 1)
                                        ++ (arm_bpf_put_reg32 dst.lo arm_lr
                                            ++ arm_bpf_put_reg32 dst.hi arm_ip))))))))))

unfoldable pub emit_a32_rsh_i64 : RegPair → ℕ → Code
emit_a32_rsh_i64 dst imm =
    let val = u16 imm in
    let rd = arm_bpf_get_reg64 dst tmp_reg_1 in
    let tmp = tmp_reg_2.lo in
    rd.code
    ++ ((if val == 0
          then []
          else if ltb val 32
          then emit4 (lsrw_imm_t2 tmp rd.at.lo val 0)
            ++ (emit4 (orrw_reg_t2 rd.at.lo tmp rd.at.hi (32 - val) 0 0)
                ++ emit4 (lsrw_imm_t2 rd.at.hi rd.at.hi val 0))
          else if val == 32
          then emit_mov_reg rd.at.hi rd.at.lo ++ emit_mov_imm rd.at.hi 0
          else emit4 (lsrw_imm_t2 rd.at.lo rd.at.hi (val - 32) 0) ++ emit_mov_imm rd.at.hi 0)
        ++ arm_bpf_put_reg64 dst rd.at)

unfoldable pub emit_a32_arsh_r64 : RegPair → RegPair → Code
emit_a32_arsh_r64 dst src =
    let rt = arm_bpf_get_reg32 src.lo tmp_reg_2.lo in
    let rd = arm_bpf_get_reg64 dst tmp_reg_1 in
    let tmp = tmp_reg_2.hi in
    let high = rd.at.hi in
    rt.code
    ++ (rd.code
        ++ (emit4 (rsbw_imm_t2 arm_ip rt.at 32 1)
            ++ (emit4 (subw_imm_t4 tmp rt.at 32 1)
                ++ (emit4 (lsrw_reg_t2 arm_lr rd.at.lo rt.at 1)
                    ++ (emit4 (lslw_reg_t2 high high tmp 0)
                        ++ (emit4 (orrw_reg_t2 arm_lr arm_lr high 0 0 1)
                            ++ (emit4 (asrw_reg_t2 high high tmp 0)
                                ++ (emit2 (it_t1 0x5 0x8)
                                    ++ (emit4 (orrw_reg_t2 arm_lr arm_lr high 0 0 1)
                                        ++ (emit4 (asrw_reg_t2 arm_ip high rt.at 1)
                                            ++ (arm_bpf_put_reg32 dst.lo arm_lr
                                                ++ arm_bpf_put_reg32 dst.hi arm_ip)))))))))))

-- `val` is a `u32` here.
unfoldable pub emit_a32_arsh_i64 : RegPair → ℕ → Code
emit_a32_arsh_i64 dst val =
    let rd = arm_bpf_get_reg64 dst tmp_reg_1 in
    let tmp = tmp_reg_2.lo in
    rd.code
    ++ ((if val == 0
          then []
          else if ltb val 32
          then emit4 (lsrw_imm_t2 tmp rd.at.lo val 1)
            ++ (emit4 (orrw_reg_t2 rd.at.lo tmp rd.at.hi (32 - val) 0 1)
                ++ emit4 (asrw_imm_t2 rd.at.hi rd.at.hi val 1))
          else if val == 32
          then emit_mov_reg rd.at.hi rd.at.lo ++ emit4 (asrw_imm_t2 rd.at.hi rd.at.hi 31 1)
          else emit4 (asrw_imm_t2 rd.at.lo rd.at.hi (val - 32) 1)
            ++ emit4 (asrw_imm_t2 rd.at.hi rd.at.hi 31 1))
        ++ arm_bpf_put_reg64 dst rd.at)
