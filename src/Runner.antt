-- ===== src/Runner.antt =====
-- src/runner.rs: the loops that refresh the users and run a tick, until a signal, an error or the
-- greatest number of ticks ends them. The callbacks are a record of their methods over a state, and
-- `await` is sequencing. A loop is on fuel, one for each round, and `none` when it runs out of it; a
-- loop with `max_ticks` needs one more than that. What `select!` takes first is given by `recv`:
-- the event that arrives before the end of the pause, if one does. A channel for a reply is a
-- number.
pub mod Exit
pub mod Events
mod Tests
use kelinode_rs.Prelude.{
  ℕ, zero, suc, ◌+◌, ◌%◌, Bool, true, false, not, ◌&&◌, Option, none, some, List, [], ◌∷◌, ◌++◌,
  ltb, leb, ◌==◌, if◌then◌else◌, is_empty,
}
use kelinode_rs.Prelude.Text.{Text, text}
use kelinode_rs.Prelude.Result.{Result, ok, err, ◌>>=◌}
use kelinode_rs.BTreeMap.{BTreeMap}
use kelinode_rs.User.{UserInfo}

-- machine.rs
pub record MachineReleaseAuth : Type 0 where
  pub machine_id : Text
  pub machine_token : Text

pub record MachineUpgradeCommand : Type 0 where
  pub id : Text
  pub target_version : Text
  pub component : Text
  pub release_source : Text
  pub release_base_url : Text
  pub release_auth : MachineReleaseAuth

-- control.rs
pub data RuntimeLoopSignal : Type 0 where
  continue reload : RuntimeLoopSignal
  upgrade : MachineUpgradeCommand → RuntimeLoopSignal

abbrev pub Users : Type 0
Users = BTreeMap Text (List UserInfo)

pub record RuntimeTickOptions (O : Type 0) : Type 0 where
  pub control : O
  pub report_to_panel : Bool
  pub users_by_node_tag : Users

pub record RuntimeLoopOptions (O : Type 0) : Type 0 where
  pub control : O
  pub max_ticks : Option ℕ
  pub tick_interval : ℕ
  pub user_refresh_interval : ℕ
  pub panel_report_interval : ℕ

pub data RuntimeLoopExitReason : Type 0 where
  max_ticks_reached shutdown_requested : RuntimeLoopExitReason
  signalled : RuntimeLoopSignal → RuntimeLoopExitReason

pub record RuntimeLoopExit : Type 0 where
  pub ticks : ℕ
  pub reason : RuntimeLoopExitReason

pub data RuntimeLoopEventKind : Type 0 where
  reload_event refresh_users_event : RuntimeLoopEventKind

pub record RuntimeLoopEvent : Type 0 where
  pub kind : RuntimeLoopEventKind
  pub reply : Option ℕ

pub record RuntimeLoopEventReply : Type 0 where
  pub status : Text
  pub message : Text

abbrev pub queued : Text → RuntimeLoopEventReply
queued message = record { status = text "queued"; message = message }

abbrev pub applied : Text → RuntimeLoopEventReply
applied message = record { status = text "applied"; message = message }

-- The two traits of callbacks have the same methods.
pub record RuntimeLoopCallbacks (O : Type 0) (C : Type 0) : Type 0 where
  pub refresh_users : C → Result Text Users × C
  pub run_tick : RuntimeTickOptions O → C → Result Text RuntimeLoopSignal × C
  pub sleep : ℕ → C → Result Text (Unit {0}) × C

-- The receiver of events and the senders of replies.
pub record RuntimeLoopEvents (C : Type 0) : Type 0 where
  pub recv : C → Option RuntimeLoopEvent × C
  pub send : ℕ → Result Text RuntimeLoopEventReply → C → C

unfoldable pub should_run : ℕ → ℕ → Bool
should_run tick interval = ltb 0 interval && (tick % interval == 0)

abbrev pub is_continue : RuntimeLoopSignal → Bool
is_continue continue = true
is_continue reload = false
is_continue (upgrade _) = false

abbrev pub limit_reached : Option ℕ → ℕ → Bool
limit_reached none ticks = false
limit_reached (some max_ticks) ticks = leb max_ticks ticks

-- Where a round leaves the loop: at the next round, or out of it.
pub data Step (C : Type 0) : Type 0 where
  running : ℕ → C → Step C
  finished : Result Text RuntimeLoopExit → C → Step C

module _ {O C : Type 0} (callbacks : RuntimeLoopCallbacks O C)
    (options : RuntimeLoopOptions O) where
  -- A tick with the users refreshed, where they are due.
  unfoldable pub run_one : ℕ → C → Result Text RuntimeLoopSignal × C
  unfolding should_run
  run_one ticks c =
      let (refreshed, c1) =
        (if should_run ticks options.user_refresh_interval
          then callbacks.refresh_users c
          else (ok [], c)) in
      elim refreshed as (λ _. Result Text RuntimeLoopSignal × C) [
        | err e ↦ (err e, c1)
        | ok users_by_node_tag ↦
            callbacks.run_tick
              (record {
                control = options.control;
                report_to_panel = should_run ticks options.panel_report_interval;
                users_by_node_tag = users_by_node_tag;
              })
              c1
      ]

  -- The body of the loops, which differ in how they pause.
  unfoldable pub run_round : (ℕ → C → Step C) → ℕ → C → Step C
  unfolding run_one
  run_round pause ticks c =
      let (result, c1) = run_one (ticks + 1) c in
      if limit_reached options.max_ticks ticks
      then finished (ok (record { ticks = ticks; reason = max_ticks_reached })) c
      else elim result as (λ _. Step C) [
        | err e ↦ finished (err e) c1
        | ok s ↦
            if not (is_continue s)
            then finished (ok (record { ticks = ticks + 1; reason = signalled s })) c1
            else if limit_reached options.max_ticks (ticks + 1)
            then finished (ok (record { ticks = ticks + 1; reason = max_ticks_reached })) c1
            else pause (ticks + 1) c1
      ]

  unfoldable pub run_rounds :
      (ℕ → C → Step C) → ℕ → ℕ → C → Option (Result Text RuntimeLoopExit × C)
  unfolding run_round
  run_rounds pause zero ticks c = none
  run_rounds pause (suc fuel) ticks c = elim (run_round pause ticks c) [
    | finished result c1 ↦ some (result, c1)
    | running ticks1 c1 ↦ run_rounds pause fuel ticks1 c1
  ]

  unfoldable pub sleep_pause : ℕ → C → Step C
  sleep_pause ticks c =
      let (slept, c1) = callbacks.sleep options.tick_interval c in
      if ltb 0 options.tick_interval
      then elim slept as (λ _. Step C) [ err e ↦ finished (err e) c1 | ok _ ↦ running ticks c1 ]
      else running ticks c

  unfoldable pub run_runtime_loop : ℕ → C → Option (Result Text RuntimeLoopExit × C)
  unfolding run_rounds sleep_pause
  run_runtime_loop fuel c = run_rounds sleep_pause fuel 0 c

  unfoldable pub run_runtime_loop_async : ℕ → C → Option (Result Text RuntimeLoopExit × C)
  unfolding run_rounds sleep_pause
  run_runtime_loop_async fuel c = run_rounds sleep_pause fuel 0 c

  -- The result of an event, with the reply for who asked for it.
  unfoldable pub event_result :
      RuntimeLoopEventKind → C → Result Text (RuntimeLoopSignal × RuntimeLoopEventReply) × C
  event_result reload_event c = (ok (reload, queued (text "reload queued")), c)
  event_result refresh_users_event c =
      let (refreshed, c1) = callbacks.refresh_users c in
      elim refreshed as (λ _. Result Text (RuntimeLoopSignal × RuntimeLoopEventReply) × C) [
        | err e ↦ (err e, c1)
        | ok users_by_node_tag ↦
            let (result, c2) =
              callbacks.run_tick
                (record {
                  control = options.control;
                  report_to_panel = false;
                  users_by_node_tag = users_by_node_tag;
                })
                c1 in
            if is_empty users_by_node_tag
            then (ok (continue, applied (text "user refresh no changes")), c1)
            else ((result >>= λ s. ok (s, applied (text "user refresh applied"))), c2)
      ]

  module _ (events : RuntimeLoopEvents C) where
    abbrev pub answer : Option ℕ → Result Text RuntimeLoopEventReply → C → C
    answer none result c = c
    answer (some channel) result c = events.send channel result c

    unfoldable pub handle_runtime_loop_event :
        RuntimeLoopEvent → C → Result Text RuntimeLoopSignal × C
    unfolding event_result
    handle_runtime_loop_event event c =
        let (result, c1) = event_result event.kind c in
        ((result >>= λ r. ok r.0), answer event.reply (result >>= λ r. ok r.1) c1)

    unfoldable pub event_pause : ℕ → C → Step C
    unfolding handle_runtime_loop_event
    event_pause ticks c =
        let (received, c1) = events.recv c in
        if ltb 0 options.tick_interval
        then elim received as (λ _. Step C) [
          | none ↦ running ticks c1
          | some event ↦
              let (result, c2) = handle_runtime_loop_event event c1 in
              elim result as (λ _. Step C) [
                | err e ↦ finished (err e) c2
                | ok s ↦
                    if not (is_continue s)
                    then finished (ok (record { ticks = ticks; reason = signalled s })) c2
                    else running ticks c2
              ]
        ]
        else running ticks c

    unfoldable pub run_runtime_loop_async_with_events :
        ℕ → C → Option (Result Text RuntimeLoopExit × C)
    unfolding run_rounds event_pause
    run_runtime_loop_async_with_events fuel c = run_rounds event_pause fuel 0 c
