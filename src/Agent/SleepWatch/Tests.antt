-- ===== src/Agent/SleepWatch/Tests.antt =====
-- Tests of src/agent/sleep-watch.ts.
use abracadabra.Common.{◌≤◌, false, ◌≡◌, refl, [], ◌∷◌, ◌++◌}
use abracadabra.Common.Texts.{is_space}
use abracadabra.Agent.SleepWatch.{
  codes, spawned, after_word, skip_spaces, includes, in_brackets, trim, is_boolean, handle_line,
  take_lines, keep_last, on_stdout, start_child, schedule_restart, stop, stdout, exits, restarts,
  step, start_sleep_watch, run,
}
use abracadabra.Agent.SleepWatch.Runs.{run_bound}

watch_run : Unit {0}
unfolding run step on_stdout take_lines keep_last handle_line includes in_brackets trim is_boolean
    after_word skip_spaces start_child schedule_restart start_sleep_watch is_space
watch_run = tt

gdbus_test :
    (run
      (stdout (codes "x.PrepareForSleep ( true,)" ++ 10 ∷ []) ∷ [])
      (start_sleep_watch spawned)).sleeps
    ≡ 1
unfolding watch_run
gdbus_test = refl

waking_test :
    (run
      (stdout (codes "x.PrepareForSleep (false,)" ++ 10 ∷ []) ∷ [])
      (start_sleep_watch spawned)).sleeps
    ≡ 0
unfolding watch_run
waking_test = refl

-- The answer of dbus-monitor comes in two lines, here in two chunks that split the second.
monitor_test :
    (run
      (stdout (codes "member=PrepareForSleep" ++ 10 ∷ codes "   bool")
        ∷ stdout (codes "ean true" ++ 10 ∷ [])
        ∷ [])
      (start_sleep_watch spawned)).sleeps
    ≡ 1
unfolding watch_run
monitor_test = refl

run_bound_example :
    ((run (exits ∷ restarts spawned ∷ []) (start_sleep_watch spawned)).started ≤ 6)
    × (run
          (stdout (codes "PrepareForSleep (true,)" ++ 10 ∷ []) ∷ [])
          (stop (run (exits ∷ restarts spawned ∷ []) (start_sleep_watch spawned)))
        ≡ stop (run (exits ∷ restarts spawned ∷ []) (start_sleep_watch spawned)))
    × ((stop (run (exits ∷ restarts spawned ∷ []) (start_sleep_watch spawned))).restart_timer
        ≡ false)
run_bound_example =
    run_bound spawned (exits ∷ restarts spawned ∷ [])
      (stdout (codes "PrepareForSleep (true,)" ++ 10 ∷ []) ∷ [])
