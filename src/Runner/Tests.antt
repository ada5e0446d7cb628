-- ===== src/Runner/Tests.antt =====
-- The loops of src/runner.rs with callbacks that count, and the theorems at inputs that meet their
-- hypotheses.
use kelinode_rs.Prelude.{ℕ, ◌+◌, none, some, [], if◌then◌else◌, ◌==◌, ◌≡◌, refl}
use kelinode_rs.Prelude.Result.{ok}
use kelinode_rs.Runner.{
  RuntimeLoopSignal, max_ticks_reached, signalled, RuntimeLoopOptions, RuntimeLoopCallbacks,
  RuntimeLoopEvents, run_runtime_loop, run_runtime_loop_async, run_runtime_loop_async_with_events,
  run_rounds, run_round, run_one, should_run, sleep_pause,
}
use kelinode_rs.Runner.Exit.{Returns, IsExit, loops-Return}

-- The state counts the ticks; the third one asks for a reload.
abbrev counting : RuntimeLoopCallbacks (Unit {0}) ℕ
counting = record {
  refresh_users = λ c. (ok [], c);
  run_tick = λ options c.
      (ok (if c == 2 then RuntimeLoopSignal.reload else RuntimeLoopSignal.continue), c + 1);
  sleep = λ duration c. (ok tt, c);
}

abbrev options : ℕ → RuntimeLoopOptions (Unit {0})
options n = record {
  control = tt;
  max_ticks = some n;
  tick_interval = 60;
  user_refresh_interval = 1;
  panel_report_interval = 1;
}

stops_at_limit :
    run_runtime_loop counting (options 2) 3 0
    ≡ some (ok (record { ticks = 2; reason = max_ticks_reached }), 2)
unfolding run_runtime_loop run_rounds run_round run_one sleep_pause should_run
stops_at_limit = refl

stops_at_signal :
    run_runtime_loop counting (options 9) 10 0
    ≡ some (ok (record { ticks = 3; reason = signalled RuntimeLoopSignal.reload }), 3)
unfolding run_runtime_loop run_rounds run_round run_one sleep_pause should_run
stops_at_signal = refl

abbrev silence : RuntimeLoopEvents ℕ
silence = record { recv = λ c. (none, c); send = λ channel reply c. c }

loops-Return_example :
    Returns (IsExit 9) (run_runtime_loop counting (options 9) 10 0)
    × Returns (IsExit 9) (run_runtime_loop_async counting (options 9) 10 0)
    × Returns (IsExit 9) (run_runtime_loop_async_with_events counting (options 9) silence 10 0)
loops-Return_example = loops-Return counting (options 9) 9 silence 0 refl
