-- ===== src/Shipped/Rounds.antt =====
-- The rounds of the program `amnesia33_cve_2020_17445` and those of its source.
use rapid_patch_runtime_ae.Common.{
  ℕ, zero, suc, ◌+◌, ◌-◌, ◌*◌, ◌%◌, ◌^◌, ◌<◌, ◌≡◌, ◌≢◌, refl, sym, ap, ◌∙◌, arith, true, false, u64,
  u32, Option, some, none, inl, inr, ◌⊎◌, Bool-cases,
}
use rapid_patch_runtime_ae.Patch.Filter.{some_inj}
use rapid_patch_runtime_ae.Vm.Inst.{decode, Cond}
use rapid_patch_runtime_ae.Vm.Memory.{Memory}
use rapid_patch_runtime_ae.Vm.State.{Vm, Frame, State, ok, stop, returned}
use rapid_patch_runtime_ae.Vm.Alu.{holds}
use rapid_patch_runtime_ae.Vm.Step.{step, exec_op}
use rapid_patch_runtime_ae.Shipped.Runs.{steps, steps-add, Ends, Ends-steps}
use rapid_patch_runtime_ae.Shipped.Programs.{amnesia33_cve_2020_17445, machine_of}
use rapid_patch_runtime_ae.Shipped.Sources.{refused, walk_options, intercept, set_return}
use rapid_patch_runtime_ae.Shipped.Destopt.{
  at, read_option, no_option, add_option, wrapped, next_option, again, fall_through, done,
}
use rapid_patch_runtime_ae.Shipped.Walk.{
  IsBytes, load-byte, walk_options-suc, walk_options-end, refused_none, refused_wrapped,
  not_refused,
}

module _ (f : Frame) (m : Memory) (bytes : IsBytes m) (r8 r9 r10 r11 : ℕ) where
  abbrev head : ℕ → ℕ → ℕ → ℕ → ℕ → ℕ → ℕ → ℕ → State
  head r0 len option ptr r4 r5 r6 r7 = at f m r8 r9 r10 r11 7 r0 len option ptr r4 r5 r6 r7

  abbrev vm : Vm
  vm = machine_of amnesia33_cve_2020_17445

  failed :
      (len option ptr r4 r5 r6 r7 : ℕ)
      → step vm f (at f m r8 r9 r10 r11 34 0x1_ffff_ffff len option ptr r4 r5 r6 r7)
        ≡ stop (returned (intercept (2 ^ 32 - 1)))
  unfolding step exec_op decode set_return
  failed len option ptr r4 r5 r6 r7 = refl

  passed :
      (len option ptr r4 r5 r6 r7 : ℕ)
      → step vm f (at f m r8 r9 r10 r11 34 0 len option ptr r4 r5 r6 r7)
        ≡ stop (returned (intercept 0))
  unfolding step exec_op decode set_return
  passed len option ptr r4 r5 r6 r7 = refl

  -- The state after the option's length has been read, and after the sum.
  abbrev seen : ℕ → ℕ → ℕ → ℕ → ℕ → State
  seen len option ptr r6 b =
      at f m r8 r9 r10 r11 15 (2 ^ 32) len option ptr 0xffffffff (b + 2) r6 ((b + 2) % 256)

  -- What is left of a round once the length of the option is known.
  refuse-Ends :
      (len option ptr r6 b : ℕ)
      → refused (u32 ptr) option (len % 256) ((b + 2) % 256) ≡ true
      → ptr < 2 ^ 64
      → Ends vm f 10 (seen len option ptr r6 b) (intercept (2 ^ 32 - 1))
  refuse-Ends len option ptr r6 b r short = elim (Bool-cases (holds Cond.jeq ((b + 2) % 256) 0)) [
    | inl none_left ↦ (
      2,
      _,
      no_option f m r8 r9 r10 r11 len option ptr (b + 2) r6 ((b + 2) % 256) none_left,
      failed len option ptr 0xffffffff (b + 2) r6 ((b + 2) % 256),
      omega arith,
    )
    | inr some_left ↦ elim (Bool-cases (holds Cond.jge (u32 ptr) (u32 (ptr + (b + 2) % 256)))) [
      | inl over ↦
          Ends-steps vm f 8 2 _ _ _
            (add_option f m r8 r9 r10 r11 len option ptr (b + 2) r6 ((b + 2) % 256) some_left)
            (
              2,
              _,
              wrapped f m r8 r9 r10 r11 len option (u32 ptr) (b + 2) (u64 (ptr + (b + 2) % 256))
                  (u32 (ptr + (b + 2) % 256)) over,
              failed len option (u32 ptr) 0xffffffff (b + 2) (u64 (ptr + (b + 2) % 256))
                  (u32 (ptr + (b + 2) % 256)),
              omega arith,
            )
      | inr fits ↦
          absurd (let z = not_refused ptr option (len % 256) ((b + 2) % 256) some_left fits in cc)
    ]
  ]

  -- The state at the end of a round, where the length that is left decides.
  abbrev decide : ℕ → ℕ → ℕ → ℕ → State
  decide len option ptr b =
      let left = u64 (len + 2 ^ 64 - (b + 2)) in
      let sum = u64 (ptr + (b + 2) % 256) in
      at f m r8 r9 r10 r11 32 0 left (u64 (option + (b + 2) % 256)) sum 0 (left % 256) sum
        (u32 (ptr + (b + 2) % 256))

  go_on :
      (len option ptr r6 b : ℕ)
      → b < 256
      → refused (u32 ptr) option (len % 256) ((b + 2) % 256) ≡ false
      → steps vm f 17 (seen len option ptr r6 b) ≡ ok (decide len option ptr b)
  go_on len option ptr r6 b small r =
      let optlen = (b + 2) % 256 in
      elim (Bool-cases (holds Cond.jeq optlen 0)) [
        | inl none_left ↦
            absurd (let z = refused_none ptr option (len % 256) optlen none_left in cc)
        | inr some_left ↦ elim (Bool-cases (holds Cond.jge (u32 ptr) (u32 (ptr + optlen)))) [
          | inl over ↦ absurd (let z = refused_wrapped ptr option (len % 256) optlen over in cc)
          | inr fits ↦
              steps-add vm f 8 9 _ _ _
                (add_option f m r8 r9 r10 r11 len option ptr (b + 2) r6 optlen some_left)
                (next_option f m r8 r9 r10 r11 len option (u32 ptr) b (u64 (ptr + optlen))
                  (u32 (ptr + optlen)) (omega arith) small fits)
        ]
      ]

  -- What is left of the header, the sum, and the next option.
  abbrev left_of : ℕ → ℕ → ℕ
  left_of len b = u64 (len + 2 ^ 64 - (b + 2))

  abbrev sum_of : ℕ → ℕ → ℕ
  sum_of ptr b = u64 (ptr + (b + 2) % 256)

  abbrev option_of : ℕ → ℕ → ℕ
  option_of option b = u64 (option + (b + 2) % 256)

  -- One round of the source's loop, and the same of the program.
  round :
      (n r0 len option ptr r4 r5 r6 r7 : ℕ) (r : Option ℕ)
      → len < 2 ^ 64
      → len % 256 ≢ 0
      → ptr < 2 ^ 64
      → option + 256 * suc n < 2 ^ 64
      → walk_options m (suc n) (u32 ptr) option (len % 256) ≡ some r
      → ((some (2 ^ 32 - 1) ≡ r)
          × Ends vm f 16 (head r0 len option ptr r4 r5 r6 r7) (intercept (2 ^ 32 - 1)))
        ⊎ ((b : ℕ) × (steps vm f 23 (head r0 len option ptr r4 r5 r6 r7)
              ≡ ok (decide len option ptr b))
            × (walk_options m n (u32 (sum_of ptr b)) (option_of option b) (left_of len b % 256)
                ≡ some r))
  round n r0 len option ptr r4 r5 r6 r7 r wide some_len short room e =
      let (b, read, next) = walk_options-suc m n (u32 ptr) option (len % 256) r some_len e in
      let optlen = (b + 2) % 256 in
      let small : b < 256 = load-byte m (u32 (option + 1)) b bytes read in
      let begin =
        read_option f m r8 r9 r10 r11 r0 len option ptr r4 r5 r6 r7 b (omega arith) small read in
      elim (Bool-cases (refused (u32 ptr) option (len % 256) optlen)) [
        | inl bad ↦ inl (
          some_inj (rw bad at next),
          Ends-steps vm f 6 10 _ _ _ begin (refuse-Ends len option ptr r6 b bad short),
        )
        | inr good ↦
            let same_sum : u32 (u32 ptr + optlen) ≡ u32 (sum_of ptr b) = omega arith in
            let same_option : option + optlen ≡ option_of option b = omega arith in
            let same_left : (len % 256 + 256 - optlen) % 256 ≡ left_of len b % 256 = omega arith in
            inr (
              b,
              steps-add vm f 6 17 _ _ _ begin (go_on len option ptr r6 b small good),
              rw (good, same_sum, same_option, same_left) at next,
            )
      ]

  -- From the head of the loop the program returns the verdict on what the source's loop ends with.
  pub walk_options-Ends :
      (n r0 len option ptr r4 r5 r6 r7 ret : ℕ)
      → len < 2 ^ 64
      → len % 256 ≢ 0
      → ptr < 2 ^ 64
      → option + 256 * n < 2 ^ 64
      → walk_options m n (u32 ptr) option (len % 256) ≡ some (some ret)
      → Ends vm f (24 * n) (head r0 len option ptr r4 r5 r6 r7) (intercept ret)
  unfolding walk_options holds
  walk_options-Ends zero r0 len option ptr r4 r5 r6 r7 ret wide some_len short room e = absurd (cc)
  walk_options-Ends (suc n) r0 len option ptr r4 r5 r6 r7 ret wide some_len short room e =
      elim (round n r0 len option ptr r4 r5 r6 r7 (some ret) wide some_len short room e) [
        | inl (same, (k, t, run, last, few)) ↦ (
          k,
          t,
          run,
          last ∙ ap (λ r. stop (returned (intercept r))) (some_inj same),
          omega (arith, few),
        )
        | inr (b, ran, later) ↦
            let left = left_of len b in
            let sum = sum_of ptr b in
            let low = u32 (ptr + (b + 2) % 256) in
            let option' = option_of option b in
            elim (Bool-cases (holds Cond.jne (left % 256) 0)) [
              | inl more ↦
                  let rest =
                    walk_options-Ends n 0 left option' sum 0 (left % 256) sum low ret (omega arith)
                      (ground (arith, more)) (omega arith) (omega arith) later in
                  let (k, t, run, last, few) = Ends-steps vm f 23 (1 + 24 * n) _ _ _ ran (
                    Ends-steps vm f 1 (24 * n) _ _ _
                      (again f m r8 r9 r10 r11 left option' sum (left % 256) sum low more) rest) in
                  (k, t, run, last, omega (arith, few))
              | inr over ↦
                  let nothing : left % 256 ≡ 0 = ground (arith, over) in
                  elim (walk_options-end m n (u32 sum) option' (some ret) (rw nothing at later)) [
                    | inl (out, _) ↦ absurd (cc)
                    | inr (zero_ret, fuel) ↦ (
                      25,
                      at f m r8 r9 r10 r11 34 0 left option' sum 0 (left % 256) sum low,
                      steps-add vm f 23 2 _ _ _ ran
                          (done f m r8 r9 r10 r11 left option' sum (left % 256) sum low over),
                      passed left option' sum 0 (left % 256) sum low
                          ∙ ap (λ r. stop (returned (intercept r))) (sym (some_inj zero_ret)),
                      omega (arith, fuel),
                    )
                  ]
            ]
      ]

  -- As long as the source's loop goes on, so does the program.
  pub walk_options-steps :
      (n r0 len option ptr r4 r5 r6 r7 : ℕ)
      → len < 2 ^ 64
      → len % 256 ≢ 0
      → ptr < 2 ^ 64
      → option + 256 * n < 2 ^ 64
      → walk_options m n (u32 ptr) option (len % 256) ≡ some none
      → (t : State) × (steps vm f (24 * n) (head r0 len option ptr r4 r5 r6 r7) ≡ ok t)
  unfolding walk_options holds steps
  walk_options-steps zero r0 len option ptr r4 r5 r6 r7 wide some_len short room e =
      (head r0 len option ptr r4 r5 r6 r7, refl)
  walk_options-steps (suc n) r0 len option ptr r4 r5 r6 r7 wide some_len short room e =
      elim (round n r0 len option ptr r4 r5 r6 r7 none wide some_len short room e) [
        | inl (same, _) ↦ absurd (cc)
        | inr (b, ran, later) ↦
            let left = left_of len b in
            let sum = sum_of ptr b in
            let low = u32 (ptr + (b + 2) % 256) in
            let option' = option_of option b in
            let rounds : 24 * suc n ≡ 23 + (1 + 24 * n) = omega arith in
            elim (Bool-cases (holds Cond.jne (left % 256) 0)) [
              | inr over ↦
                  let nothing : left % 256 ≡ 0 = ground (arith, over) in
                  elim (walk_options-end m n (u32 sum) option' none (rw nothing at later)) [
                    | inr (out, _) ↦ absurd (cc)
                    | inl (_, no_fuel) ↦
                        let one_round : 24 * suc n ≡ 23 + 1 = omega arith in
                        (
                          at f m r8 r9 r10 r11 33 0 left option' sum 0 (left % 256) sum low,
                          ap (λ k. steps vm f k (head r0 len option ptr r4 r5 r6 r7)) one_round
                              ∙ steps-add vm f 23 1 _ _ _ ran (
                                  fall_through f m r8 r9 r10 r11 left option' sum (left % 256) sum
                                    low over),
                        )
                  ]
              | inl more ↦
                  let (t, rest) =
                    walk_options-steps n 0 left option' sum 0 (left % 256) sum low (omega arith)
                      (ground (arith, more)) (omega arith) (omega arith) later in
                  (
                    t,
                    ap (λ k. steps vm f k (head r0 len option ptr r4 r5 r6 r7)) rounds
                        ∙ steps-add vm f 23 (1 + 24 * n) _ _ _ ran (
                            steps-add vm f 1 (24 * n) _ _ _
                              (again f m r8 r9 r10 r11 left option' sum (left % 256) sum low more)
                              rest),
                  )
            ]
      ]
