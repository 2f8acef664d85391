-- ===== src/Profiling.antt =====
-- hotpatch/src/profiling.c: events timed by the cycle counter, whose value is an argument. The
-- registers that turn the counter on and off are left out; `none` is an access outside the arrays.
use rapid_patch_runtime_ae.Common.{
  ℕ, zero, suc, ◌+◌, ◌-◌, ◌≡◌, ◌≤◌, ◌<◌, ◌^◌, refl, arith, List, [], ◌∷◌, Option, none, some, Bool,
  true, false, ltb, leb, if◌then◌else◌, length, get_or, get_or-set_self, set, replicate, u32, ap,
  Bool-cases, inl, inr,
}

abbrev pub profiler_events_max : ℕ
profiler_events_max = 12

-- Names are strings; `is_init` is `profiler_is_init`.
pub record Profiler : Type 0 where
  pub start_tick : List ℕ
  pub end_tick : List ℕ
  pub event_name : List (List ℕ)
  pub event_count : ℕ
  pub is_init : Bool

unfoldable pub setup_profiler : Profiler → Profiler
setup_profiler p = record p {
  event_count = 0;
  event_name = set (set p.event_name 0 (b'E' ∷ b'V' ∷ b'0' ∷ [])) 1 (b'E' ∷ b'V' ∷ b'1' ∷ []);
}

unfoldable pub profile_add_event : List ℕ → Profiler → Profiler × ℕ
unfolding setup_profiler
profile_add_event event p =
    let q = if p.is_init then p else setup_profiler p in
    let count = if leb profiler_events_max q.event_count then 0 else q.event_count in
    (
      record q {
        event_name = set q.event_name count event;
        start_tick = set q.start_tick count 0;
        end_tick = set q.end_tick count 0;
        event_count = count + 1;
      },
      count,
    )

unfoldable pub profile_start : ℕ → ℕ → Profiler → Option Profiler
profile_start eid now p =
    if ltb eid profiler_events_max
    then some (record p { start_tick = set p.start_tick eid now })
    else none

unfoldable pub profile_end : ℕ → ℕ → Profiler → Option (Profiler × ℕ)
profile_end eid now p =
    if ltb eid profiler_events_max
    then some (
      record p { end_tick = set p.end_tick eid now },
      u32 (now + 2 ^ 32 - get_or p.start_tick eid 0),
    )
    else none

unfoldable pub profile_exit : Profiler → Profiler
profile_exit p = record p { event_count = 0; is_init = false }

-- `step_profiler`.
pub record StepProfiler : Type 0 where
  pub ticks : List ℕ
  pub names : List (List ℕ)
  pub cid : ℕ

unfoldable pub clear_mulprf_step_profiling : StepProfiler
clear_mulprf_step_profiling = record {
  ticks = replicate profiler_events_max 0;
  names = replicate profiler_events_max [];
  cid = 0;
}

unfoldable pub init_multiple_step_profiling : ℕ → StepProfiler
unfolding clear_mulprf_step_profiling
init_multiple_step_profiling now =
    let s = clear_mulprf_step_profiling in
    record s { ticks = set s.ticks 0 now; names = set s.names 0 (b'i' ∷ b'n' ∷ b'i' ∷ b't' ∷ []) }

unfoldable pub add_mulprf_step : StepProfiler → List ℕ × ℕ → StepProfiler
add_mulprf_step s (step, now) =
    let cid = s.cid + 1 in
    if leb profiler_events_max cid
    then record s { cid = cid }
    else record { cid = cid; ticks = set s.ticks cid now; names = set s.names cid step }

-- The pairs that `show_mulprf_steps_result` prints, from `i` on with `count` rounds left.
unfoldable pub shown_from : StepProfiler → ℕ → ℕ → Option (List (List ℕ × ℕ))
shown_from s zero i = some []
shown_from s (suc count) i =
    let rest = shown_from s count (i + 1) in
    if ltb i profiler_events_max
    then elim rest [
      | none ↦ none
      | some later ↦ some ((get_or s.names i [], get_or s.ticks i 0) ∷ later)
    ]
    else none

unfoldable pub show_mulprf_steps_result : StepProfiler → Option (List (List ℕ × ℕ))
unfolding shown_from
show_mulprf_steps_result s = shown_from s (s.cid + 1) 0

-- The elapsed cycles, over a wrap of the counter too: an event that is started at `t0` and ended `d`
-- cycles later, where `d` is below 2^32, yields `d`.
pub profile_start-end :
    (eid t0 d : ℕ) (p : Profiler)
    → eid < profiler_events_max
    → length p.start_tick ≡ profiler_events_max
    → t0 < 2 ^ 32
    → d < 2 ^ 32
    → (q : Profiler) × (r : Profiler) × (profile_start eid t0 p ≡ some q)
      × (profile_end eid (u32 (t0 + d)) q ≡ some (r, d))
unfolding profile_start profile_end
profile_start-end eid t0 d p inside size low short =
    let ok : ltb eid profiler_events_max ≡ true = ground arith in
    let q : Profiler = record p { start_tick = set p.start_tick eid t0 } in
    let read : get_or q.start_tick eid 0 ≡ t0 =
      get_or-set_self p.start_tick eid t0 0 (omega arith) in
    let elapsed : u32 (u32 (t0 + d) + 2 ^ 32 - t0) ≡ d = omega arith in
    (
      q,
      record q { end_tick = set q.end_tick eid (u32 (t0 + d)) },
      rw ok refl,
      rw (ok, read, elapsed) refl,
    )

-- The numbers that a sequence of new events gets.
abbrev add_events : List (List ℕ) → Profiler → List ℕ
add_events [] p = []
add_events (event ∷ events) p =
    (profile_add_event event p).1 ∷ add_events events (profile_add_event event p).0

-- As long as nothing sets `profiler_is_init`, which no function does, every new event gets the
-- number 0, however many there are.
profile_add_event-first :
    (events : List (List ℕ)) (p : Profiler)
    → p.is_init ≡ false
    → add_events events p ≡ replicate (length events) 0
unfolding profile_add_event
profile_add_event-first [] p off = refl
profile_add_event-first (event ∷ events) p off =
    rw off (ap (λ (ns : List ℕ). 0 ∷ ns) (profile_add_event-first events _ refl))

abbrev add_steps : List (List ℕ × ℕ) → StepProfiler → StepProfiler
add_steps [] s = s
add_steps (step ∷ steps) s = add_steps steps (add_mulprf_step s step)

cid-add : (s : StepProfiler) (step : List ℕ × ℕ) → (add_mulprf_step s step).cid ≡ s.cid + 1
unfolding add_mulprf_step
cid-add s (step, now) = elim (Bool-cases (leb profiler_events_max (s.cid + 1))) [
  | inl full ↦ rw full refl
  | inr room ↦ rw room refl
]

cid-add_steps :
    (steps : List (List ℕ × ℕ)) (s : StepProfiler) → (add_steps steps s).cid ≡ s.cid + length steps
cid-add_steps [] s = omega arith
cid-add_steps (step ∷ steps) s =
    omega (arith, cid-add s step, cid-add_steps steps (add_mulprf_step s step))

shown_from-none :
    (s : StepProfiler) (count i : ℕ)
    → i ≤ profiler_events_max
    → profiler_events_max < i + count
    → shown_from s count i ≡ none
unfolding shown_from
shown_from-none s zero i low high = absurd (omega arith)
shown_from-none s (suc count) i low high = elim (Bool-cases (ltb i profiler_events_max)) [
  | inl inside ↦ rw (inside, shown_from-none s count (i + 1) (ground arith) (omega arith)) refl
  | inr outside ↦ rw outside refl
]

-- From `init_multiple_step_profiling`, twelve steps or more, which `add_mulprf_step` no longer all
-- records, make `show_mulprf_steps_result` read outside its arrays.
show_mulprf_steps_result-none :
    (now : ℕ) (steps : List (List ℕ × ℕ))
    → profiler_events_max ≤ length steps
    → show_mulprf_steps_result (add_steps steps (init_multiple_step_profiling now)) ≡ none
unfolding show_mulprf_steps_result init_multiple_step_profiling
show_mulprf_steps_result-none now steps many =
    let s = add_steps steps (init_multiple_step_profiling now) in
    let n : s.cid ≡ 0 + length steps = cid-add_steps steps (init_multiple_step_profiling now) in
    shown_from-none s (s.cid + 1) 0 (omega arith) (omega arith)
