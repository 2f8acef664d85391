-- ===== src/Shipped/Programs.antt =====
-- The programs in hotpatch/src/dynamic_patch_load.c and hotpatch/src/fixed_patch_load.c. Each array
-- is written as the words of eight bytes that it consists of, low byte first.
use rapid_patch_runtime_ae.Common.{ℕ, ◌/◌, ◌%◌, ◌^◌, List, [], ◌∷◌, map, false}
use rapid_patch_runtime_ae.Vm.Inst.{Inst}
use rapid_patch_runtime_ae.Vm.State.{Vm}

-- The bytes of an `ebpf_inst`: its opcode, two registers of four bits, the offset, the immediate.
abbrev pub inst_of : ℕ → Inst
inst_of word = record {
  opcode = word % 2 ^ 8;
  dst = word / 2 ^ 8 % 2 ^ 4;
  src = word / 2 ^ 12 % 2 ^ 4;
  offset = word / 2 ^ 16 % 2 ^ 16;
  imm = word / 2 ^ 32;
}

-- A machine as `ebpf_vm_set_inst` leaves it: `memset` has cleared `bounds_check_enabled`. The
-- helpers, which these programs do not call, are left out.
abbrev pub machine_of : List ℕ → Vm
machine_of words = record {
  insts = map inst_of words;
  bounds_check_enabled = false;
  ext_funcs = [];
}

abbrev pub test_cve : List ℕ
test_cve =
    0x0000000000001161 ∷ 0xfffff82f00000107 ∷ 0x0000002000000167 ∷ 0x0000002000000177
    ∷ 0x00000001000000b7 ∷ 0x00000bb8000002b7 ∷ 0x000000000001122d ∷ 0x00000000000000b7
    ∷ 0x0000002000000067 ∷ 0x0000000000000095 ∷ []

abbrev pub zephyr_cve_10063 : List ℕ
zephyr_cve_10063 =
    0x0000000000041161 ∷ 0x0000000500000107 ∷ 0x0000002000000167 ∷ 0x0000002000000177
    ∷ 0x0000000000001269 ∷ 0xffffffea00000118 ∷ 0x0000000000000000 ∷ 0x0000efff00010225
    ∷ 0x00000000000001b7 ∷ 0x00000001000000b7 ∷ 0x0000efff00010225 ∷ 0x00000000000000b7
    ∷ 0x0000002000000067 ∷ 0x000000000000104f ∷ 0x0000000000000095 ∷ []

abbrev pub amnesia33_cve_2020_17445 : List ℕ
amnesia33_cve_2020_17445 =
    0x0000000000001261 ∷ 0x0000000000081361 ∷ 0x0000000200000307 ∷ 0x0000000000012171
    ∷ 0x0000000200000207 ∷ 0x0000000300000167 ∷ 0x0000000600000147 ∷ 0x0000000000000018
    ∷ 0x0000000100000000 ∷ 0xffffffff00000418 ∷ 0x0000000000000000 ∷ 0x0000000000012571
    ∷ 0x0000000200000507 ∷ 0x00000000000057bf ∷ 0x000000ff00000757 ∷ 0x0000000000110715
    ∷ 0x00000000000036bf ∷ 0x000000000000760f ∷ 0x00000000000067bf ∷ 0x0000002000000767
    ∷ 0x0000002000000777 ∷ 0x0000002000000367 ∷ 0x0000002000000377 ∷ 0x000000000009733d
    ∷ 0x000000000000511f ∷ 0x000000ff00000557 ∷ 0x000000000000520f ∷ 0x00000000000004b7
    ∷ 0x00000000000015bf ∷ 0x000000ff00000557 ∷ 0x00000000000063bf ∷ 0x00000000000000b7
    ∷ 0x00000000ffe60555 ∷ 0x000000000000404f ∷ 0x0000000000000095 ∷ []
