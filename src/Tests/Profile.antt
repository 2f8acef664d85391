-- ===== src/Tests/Profile.antt =====
-- The profiler at concrete events.
use rapid_patch_runtime_ae.Common.{◌+◌, ◌≡◌, ◌^◌, ◌-◌, refl, arith, [], some, false, replicate, u32}
use rapid_patch_runtime_ae.Profiling.{
  Profiler, profiler_events_max, profile_start, profile_end, profile_start-end,
}

abbrev idle : Profiler
idle = record {
  start_tick = replicate profiler_events_max 0;
  end_tick = replicate profiler_events_max 0;
  event_name = replicate profiler_events_max [];
  event_count = 0;
  is_init = false;
}

-- The counter wraps between the two.
profile_start-end_example :
    (q : Profiler) × (r : Profiler) × (profile_start 1 (2 ^ 32 - 5) idle ≡ some q)
    × (profile_end 1 (u32 ((2 ^ 32 - 5) + 12)) q ≡ some (r, 12))
profile_start-end_example =
    profile_start-end 1 (2 ^ 32 - 5) 12 idle (omega arith) refl (omega arith) (omega arith)
