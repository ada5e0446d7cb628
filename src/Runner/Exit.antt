-- ===== src/Runner/Exit.antt =====
-- How the loops of src/runner.rs end: with `max_ticks` they return, on every path, after at most that
-- many ticks.
use kelinode_rs.Prelude.{
  ℕ, zero, suc, ◌+◌, ◌≤◌, ◌<◌, false, not, Option, none, some, ltb, leb, if◌then◌else◌, ◌≡◌, refl,
  arith, if_intro,
}
use kelinode_rs.Prelude.Text.{Text}
use kelinode_rs.Prelude.Result.{Result, ok, err, Ensures}
use kelinode_rs.Runner.{
  RuntimeLoopSignal, RuntimeLoopExit, RuntimeLoopExitReason, max_ticks_reached, shutdown_requested,
  signalled, RuntimeLoopOptions, RuntimeLoopCallbacks, RuntimeLoopEvents, RuntimeLoopEvent,
  is_continue, limit_reached, Step, running, finished, run_one, run_round, run_rounds, sleep_pause,
  event_pause, run_runtime_loop, run_runtime_loop_async, run_runtime_loop_async_with_events,
  handle_runtime_loop_event,
}

-- A loop that may take `n` ticks ends by the limit after exactly `n`, or earlier by a signal to act
-- on.
abbrev pub IsReason : ℕ → ℕ → RuntimeLoopExitReason → Type 0
IsReason n ticks max_ticks_reached = ticks ≡ n
IsReason n ticks shutdown_requested = Unit {0}
IsReason n ticks (signalled s) = is_continue s ≡ false

abbrev pub IsExit : ℕ → RuntimeLoopExit → Type 0
IsExit n exit = (exit.ticks ≤ n) × IsReason n exit.ticks exit.reason

-- The loop returns, and an exit that it returns has the property.
abbrev pub Returns :
    {C : Type 0} → (RuntimeLoopExit → Type 0) → Option (Result Text RuntimeLoopExit × C) → Type 0
Returns P none = ⊥
Returns P (some (result, c)) = Ensures P result

-- A pause leaves the ticks as they are or ends the loop.
abbrev IsPause : {C : Type 0} → ℕ → ℕ → Step C → Type 0
IsPause n ticks (running ticks1 c) = ticks1 ≡ ticks
IsPause n ticks (finished result c) = Ensures (IsExit n) result

-- A round ends the loop or takes one of the ticks that are left.
abbrev IsRound : {C : Type 0} → ℕ → ℕ → Step C → Type 0
IsRound n ticks (running ticks1 c) = (ticks1 ≡ ticks + 1) × (ticks + 1 < n)
IsRound n ticks (finished result c) = Ensures (IsExit n) result

module _ {O C : Type 0} (callbacks : RuntimeLoopCallbacks O C) (options : RuntimeLoopOptions O)
    (n : ℕ) (limit : options.max_ticks ≡ some n) (pause : ℕ → C → Step C)
    (pauses : (ticks : ℕ) (c : C) → ticks < n → IsPause n ticks (pause ticks c)) where
  limit_reached-leb : (ticks : ℕ) → limit_reached options.max_ticks ticks ≡ leb n ticks
  limit_reached-leb ticks = rw limit refl

  paused-IsRound :
      (ticks : ℕ) (step : Step C)
      → ticks + 1 < n
      → IsPause n (ticks + 1) step
      → IsRound n ticks step
  paused-IsRound ticks (running ticks1 c) h k = (k, h)
  paused-IsRound ticks (finished result c) h k = k

  run_round-IsRound :
      (ticks : ℕ) (c : C) → ticks ≤ n → IsRound n ticks (run_round callbacks options pause ticks c)
  unfolding run_round
  run_round-IsRound ticks c h =
      let Q = IsRound n ticks in
      if_intro Q (limit_reached options.max_ticks ticks)
        (λ e. (h, ground (arith, limit_reached-leb ticks)))
        (λ e.
          result_cases (ground (arith, limit_reached-leb ticks))
            (run_one callbacks options (ticks + 1) c).0)
    where
      result_cases :
          ticks < n
          → (result : Result Text RuntimeLoopSignal)
          → IsRound n ticks (elim result as (λ _. Step C) [
            | err e ↦ finished (err e) (run_one callbacks options (ticks + 1) c).1
            | ok s ↦
                if not (is_continue s)
                then finished
                    (ok (record { ticks = ticks + 1; reason = signalled s }))
                    (run_one callbacks options (ticks + 1) c).1
                else if limit_reached options.max_ticks (ticks + 1)
                then finished
                    (ok (record { ticks = ticks + 1; reason = max_ticks_reached }))
                    (run_one callbacks options (ticks + 1) c).1
                else pause (ticks + 1) (run_one callbacks options (ticks + 1) c).1
          ])
      result_cases below (err e) = tt
      result_cases below (ok s) =
          let Q = IsRound n ticks in
          if_intro Q (not (is_continue s)) (λ e. (omega arith, ground arith))
            λ _.
              if_intro Q (limit_reached options.max_ticks (ticks + 1))
                (λ e. (omega arith, ground (arith, limit_reached-leb (ticks + 1))))
                λ e.
                  let more : ticks + 1 < n = ground (arith, limit_reached-leb (ticks + 1)) in
                  paused-IsRound ticks _ more (pauses (ticks + 1) _ more)

  run_rounds-Returns :
      (fuel ticks : ℕ) (c : C)
      → ticks ≤ n
      → n < fuel + ticks
      → Returns (IsExit n) (run_rounds callbacks options pause fuel ticks c)
  unfolding run_rounds
  run_rounds-Returns zero ticks c h k = omega arith
  run_rounds-Returns (suc fuel) ticks c h k =
      step_cases (run_rounds-Returns fuel) (run_round callbacks options pause ticks c)
        (run_round-IsRound ticks c h)
    where
      step_cases :
          ((ticks1 : ℕ) (c1 : C)
            → ticks1 ≤ n
            → n < fuel + ticks1
            → Returns (IsExit n) (run_rounds callbacks options pause fuel ticks1 c1))
          → (step : Step C) → IsRound n ticks step
          → Returns (IsExit n) (elim step as (λ _. Option (Result Text RuntimeLoopExit × C)) [
            | finished result c1 ↦ some (result, c1)
            | running ticks1 c1 ↦ run_rounds callbacks options pause fuel ticks1 c1
          ])
      step_cases later (running ticks1 c1) (e, below) = later ticks1 c1 (omega arith) (omega arith)
      step_cases later (finished result c1) ends = ends

module _ {O C : Type 0} (callbacks : RuntimeLoopCallbacks O C) (options : RuntimeLoopOptions O)
    (n : ℕ) where
  sleep_pause-IsPause :
      (ticks : ℕ) (c : C) → ticks < n → IsPause n ticks (sleep_pause callbacks options ticks c)
  unfolding sleep_pause
  sleep_pause-IsPause ticks c h =
      if_intro (IsPause n ticks) (ltb 0 options.tick_interval)
        (λ _. slept_cases (callbacks.sleep options.tick_interval c).0) (λ _. refl)
    where
      slept_cases :
          (slept : Result Text (Unit {0}))
          → IsPause n ticks (elim slept as (λ _. Step C) [
            | err e ↦ finished (err e) (callbacks.sleep options.tick_interval c).1
            | ok _ ↦ running ticks (callbacks.sleep options.tick_interval c).1
          ])
      slept_cases (err e) = tt
      slept_cases (ok _) = refl

  event_pause-IsPause :
      (events : RuntimeLoopEvents C) (ticks : ℕ) (c : C)
      → ticks < n
      → IsPause n ticks (event_pause callbacks options events ticks c)
  unfolding event_pause
  event_pause-IsPause events ticks c h =
      if_intro (IsPause n ticks) (ltb 0 options.tick_interval)
        (λ _. received_cases (events.recv c).0) (λ _. refl)
    where
      handled_cases :
          (c2 : C) (handled : Result Text RuntimeLoopSignal)
          → IsPause n ticks (elim handled as (λ _. Step C) [
            | err e ↦ finished (err e) c2
            | ok s ↦
                if not (is_continue s)
                then finished (ok (record { ticks = ticks; reason = signalled s })) c2
                else running ticks c2
          ])
      handled_cases c2 (err e) = tt
      handled_cases c2 (ok s) =
          if_intro (IsPause n ticks) (not (is_continue s)) (λ e. (omega arith, ground arith))
            (λ _. refl)

      received_cases :
          (received : Option RuntimeLoopEvent)
          → IsPause n ticks (elim received as (λ _. Step C) [
            | none ↦ running ticks (events.recv c).1
            | some event ↦
                elim (handle_runtime_loop_event callbacks options events event (events.recv c).1).0
                  as (λ _. Step C) [
                    | err e ↦
                        finished
                          (err e)
                          (handle_runtime_loop_event callbacks options events event
                            (events.recv c).1).1
                    | ok s ↦
                        if not (is_continue s)
                        then finished
                            (ok (record { ticks = ticks; reason = signalled s }))
                            (handle_runtime_loop_event callbacks options events event
                              (events.recv c).1).1
                        else running ticks
                            (handle_runtime_loop_event callbacks options events event
                              (events.recv c).1).1
                  ]
          ])
      received_cases none = refl
      received_cases (some event) = handled_cases _ _

  -- With `max_ticks` of `n`, fuel for one more round is enough for each of the three loops to
  -- return, whatever the callbacks and the events do; a loop that ends without an error took at
  -- most `n` ticks, exactly `n` where it ends by the limit, and no signal that ends it is
  -- `Continue`.
  pub loops-Return :
      (events : RuntimeLoopEvents C) (c : C)
      → options.max_ticks ≡ some n
      → Returns (IsExit n) (run_runtime_loop callbacks options (suc n) c)
        × Returns (IsExit n) (run_runtime_loop_async callbacks options (suc n) c)
        × Returns (IsExit n) (run_runtime_loop_async_with_events callbacks options events (suc n) c)
  unfolding run_runtime_loop run_runtime_loop_async run_runtime_loop_async_with_events
  loops-Return events c limit =
      let sleeping =
        run_rounds-Returns callbacks options n limit (sleep_pause callbacks options)
          sleep_pause-IsPause (suc n) 0 c (omega arith) (omega arith) in
      (
        sleeping,
        sleeping,
        run_rounds-Returns callbacks options n limit (event_pause callbacks options events)
            (event_pause-IsPause events) (suc n) 0 c (omega arith) (omega arith),
      )
