-- ===== src/Tests/Shipped.antt =====
-- The shipped programs at concrete frames and packets.
use rapid_patch_runtime_ae.Common.{
  ℕ, ◌≡◌, ◌<◌, ◌^◌, ◌-◌, refl, arith, Bool, List, some, none, replicate, ◌==◌, if◌then◌else◌, u32,
}
use rapid_patch_runtime_ae.Common.Int.{pos, signed32, lt_z}
use rapid_patch_runtime_ae.Vm.Memory.{Memory, load}
use rapid_patch_runtime_ae.Vm.State.{Frame, Outcome, returned, ended, iter_limit}
use rapid_patch_runtime_ae.Vm.Run.{ebpf_vm_exec}
use rapid_patch_runtime_ae.Shipped.Programs.{
  test_cve, zephyr_cve_10063, amnesia33_cve_2020_17445, machine_of,
}
use rapid_patch_runtime_ae.Shipped.Sources.{
  filter_option_len, filter_destopt, walk_options, refused, set_return,
}
use rapid_patch_runtime_ae.Shipped.TestCve.{returned_by, test_cve-mends}
use rapid_patch_runtime_ae.Patch.Lookup.{get_dynamic_patch_by_bpkt}
use rapid_patch_runtime_ae.Dispatch.Points.{StackContext, run_patch_here}
use rapid_patch_runtime_ae.Tests.Patching.{filtered}
use rapid_patch_runtime_ae.Shipped.Coap.{zephyr_cve_10063-filter}
use rapid_patch_runtime_ae.Shipped.Walk.{IsBytes}
use rapid_patch_runtime_ae.Shipped.Options.{
  amnesia33_cve_2020_17445-filter, amnesia33_cve_2020_17445-limit,
}

abbrev frame : Frame
frame = record { mem = 0x1000; mem_len = 32; stack = 0x2000 }

abbrev junk : List ℕ
junk = replicate 12 0x55

-- The frame's word for `r0` is 3000.
abbrev number : Memory
number a = if a == 0x1000 then some 0xb8 else if a == 0x1001 then some 0x0b else some 0

number_read : load number 0x1000 4 ≡ some 3000
unfolding load
number_read = refl

-- A call of the function with 3000, at the place of the registered breakpoint.
abbrev call_frame : StackContext
call_frame = record {
  r0 = 3000;
  r1 = 0;
  r2 = 0;
  r3 = 0;
  r12 = 0;
  lr = 0x0800_0301;
  pc = 0x0800_1000;
  xpsr = 0;
}

abbrev value_of : Outcome → ℕ
value_of (ended (returned v)) = v
value_of _ = 0

abbrev interpreted : ℕ → StackContext → ℕ × StackContext
interpreted patch ctx = (value_of (ebpf_vm_exec (machine_of test_cve) frame junk number), ctx)

registered : get_dynamic_patch_by_bpkt filtered 0x0800_1000 ≡ some 0x200
unfolding get_dynamic_patch_by_bpkt
registered = refl

test_cve-mends_example :
    (done : Bool × StackContext) × (run_patch_here interpreted filtered call_frame ≡ some done)
    × (returned_by call_frame done
        ≡ some (if lt_z (pos 5000) (signed32 3000) then 2 ^ 32 - 1 else 0))
test_cve-mends_example =
    test_cve-mends interpreted filtered call_frame 0x200 frame junk number refl (omega arith)
      (omega arith) number_read registered (λ e. omega arith) (λ ret e. rw e refl)

-- The frame's word for `r1` is 0x3000, and the option there says 0xf123.
abbrev packet : Memory
packet a =
    if a == 0x1005
    then some 0x30
    else if a == 0x3005
    then some 0x23
    else if a == 0x3006
    then some 0xf1
    else some 0

packet_at : load packet 0x1004 4 ≡ some 0x3000
unfolding load
packet_at = refl

option_read : load packet (u32 0x3005) 2 ≡ some 0xf123
unfolding load
option_read = refl

zephyr_cve_10063-filter_example :
    ebpf_vm_exec (machine_of zephyr_cve_10063) frame junk packet
    ≡ ended (returned (filter_option_len 0xf123))
zephyr_cve_10063-filter_example =
    zephyr_cve_10063-filter frame junk packet 0x3000 0xf123 refl (omega arith) (omega arith)
      (omega arith) packet_at option_read

-- Every byte is the same: with 0, three options of two bytes fill the header's six; with 2, options
-- of four bytes never meet the end of the header's 22.
abbrev all : ℕ → Memory
all byte a = some byte

all-IsBytes : (byte : ℕ) → byte < 256 → IsBytes (all byte)
all-IsBytes byte small a v e = ground arith

zero_word : (a : ℕ) → load (all 0) a 4 ≡ some 0
unfolding load
zero_word a = refl

two_word : (a : ℕ) → load (all 2) a 4 ≡ some 0x0202_0202
unfolding load
two_word a = refl

short_walk : filter_destopt (all 0) 4 0 0 ≡ some (some 0)
unfolding filter_destopt load walk_options refused set_return
short_walk = refl

long_walk : filter_destopt (all 2) 1366 0x0202_0202 0x0202_0202 ≡ some none
unfolding filter_destopt load walk_options refused set_return
long_walk = refl

amnesia33_cve_2020_17445-filter_example :
    ebpf_vm_exec (machine_of amnesia33_cve_2020_17445) frame junk (all 0) ≡ ended (returned 0)
amnesia33_cve_2020_17445-filter_example =
    amnesia33_cve_2020_17445-filter frame junk (all 0) 0 0 4 0 refl (omega arith) (omega arith)
      (omega arith) (all-IsBytes 0 (omega arith)) (zero_word 0x1000) (zero_word 0x1008) short_walk
      (omega arith)

amnesia33_cve_2020_17445-limit_example :
    ebpf_vm_exec (machine_of amnesia33_cve_2020_17445) frame junk (all 2) ≡ iter_limit
amnesia33_cve_2020_17445-limit_example =
    amnesia33_cve_2020_17445-limit frame junk (all 2) 0x0202_0202 0x0202_0202 refl (omega arith)
      (omega arith) (omega arith) (all-IsBytes 2 (omega arith)) (two_word 0x1000) (two_word 0x1008)
      long_walk
