-- ===== src/Tests/Service.antt =====
-- The patch service with a peer that has a fixed stream of bytes to send.
use rapid_patch_runtime_ae.Common.{
  ℕ, zero, suc, ◌+◌, ◌≤◌, arith, List, [], ◌∷◌, ◌++◌, length, take, replicate, true,
}
use rapid_patch_runtime_ae.Service.Commands.{Outside, Service, running, wait_for_patch}
use rapid_patch_runtime_ae.Service.Ending.{Finite, Ended, wait_for_patch-ends}
use rapid_patch_runtime_ae.Tests.Patching.{context, slack}
use rapid_patch_runtime_ae.Tests.Points.{image}

abbrev rest : ℕ → List ℕ → List ℕ
rest zero xs = xs
rest (suc n) [] = []
rest (suc n) (x ∷ xs) = rest n xs

rest-take : (n : ℕ) (xs : List ℕ) → length (rest n xs) + length (take n xs) ≤ length xs
rest-take zero xs = omega arith
rest-take (suc n) [] = omega arith
rest-take (suc n) (x ∷ xs) = omega (arith, rest-take n xs)

abbrev stream_peer : Outside (List ℕ)
stream_peer = record {
  connect = λ w. (w, true);
  receive = λ w n. (rest n w, take n w);
  send = λ w bytes. (w, length bytes);
  close = λ w. w;
  malloc = λ w n. (w, 0x180);
  garbage = λ w n. replicate 64 0;
  init_ebpf_vm = λ w. (w, 0x340);
}

stream_peer-Finite : Finite stream_peer length
stream_peer-Finite = record {
  after_receive = λ w n. rest-take n w;
  after_send = λ w bytes. omega arith;
  after_close = λ w. omega arith;
  after_malloc = λ w n. omega arith;
  after_init = λ w. omega arith;
}

-- A heartbeat, a patch of eight bytes with its signature, and the wish to end.
abbrev session : List ℕ
session = 2 ∷ 1 ∷ 24 ∷ 0 ∷ (replicate 16 7 ++ (2 ∷ 0 ∷ 0 ∷ 0 ∷ 0 ∷ 0x50 ∷ 0 ∷ 8 ∷ 0 ∷ []))

abbrev connected : Service (List ℕ)
connected = record { world = session; status = running; buf = replicate 4 0; patches = context }

wait_for_patch-ends_example : Ended (wait_for_patch stream_peer image slack 30 connected)
wait_for_patch-ends_example =
    wait_for_patch-ends stream_peer image slack length stream_peer-Finite 30 connected (omega arith)
