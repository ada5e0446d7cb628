-- ===== src/Realtime/Worker.antt =====
-- `serve_realtime_runtime_transport` of src/runner.rs: the messages of a connection, of which some ask
-- the runtime loop for an event and are answered by receipts. What the connection receives is the
-- list of its messages and how it ends; sending, the clock and the channel to the loop are a record
-- of operations over a state.
pub mod Answers
mod Tests
use kelinode_rs.Prelude.{ℕ, Bool, Option, none, some, List, [], ◌∷◌}
use kelinode_rs.Prelude.Int.{ℤ}
use kelinode_rs.Prelude.Text.{Text, text}
use kelinode_rs.Prelude.Result.{Result, ok, err}
use kelinode_rs.Runner.{
  RuntimeLoopEventKind, reload_event, refresh_users_event, RuntimeLoopEventReply,
}
use kelinode_rs.Realtime.{
  RealtimeMessage, RealtimeOptions, RealtimeRuntimeTask, pong_task, no_task, config_check_task,
  force_reload_task, user_sync_task, hello_ack_task, error_task, ping, realtime_runtime_task,
  build_realtime_receipt,
}

-- What becomes of an event that is sent with a channel for its reply: the loop is gone, or it is gone
-- before it replies, or it replies.
pub data Fate : Type 0 where
  receiver_closed reply_dropped : Fate
  replied : Result Text RuntimeLoopEventReply → Fate

pub record RealtimeRuntime (C : Type 0) : Type 0 where
  pub send : RealtimeMessage → C → Result Text (Unit {0}) × C
  pub unix_now : C → ℤ × C
  pub submit : RuntimeLoopEventKind → C → Fate × C

unfoldable pub runtime_loop_event_for_task :
    RealtimeRuntimeTask → Option (RuntimeLoopEventKind × Text × Text)
runtime_loop_event_for_task config_check_task =
    some (reload_event, text "config", text "reload queued")
runtime_loop_event_for_task force_reload_task =
    some (reload_event, text "config", text "reload queued")
runtime_loop_event_for_task user_sync_task =
    some (refresh_users_event, text "users", text "user refresh queued")
runtime_loop_event_for_task no_task = none
runtime_loop_event_for_task (pong_task _) = none
runtime_loop_event_for_task (error_task _) = none
runtime_loop_event_for_task hello_ack_task = none

-- The status and the message of the last receipt.
abbrev pub outcome : Fate → Text × Text
outcome receiver_closed = (text "failed", text "runtime event receiver closed")
outcome reply_dropped = (text "failed", text "runtime event reply dropped")
outcome (replied (ok reply)) = (reply.status, reply.message)
outcome (replied (err error)) = (text "failed", error)

-- `?` after a call that changes the state.
infixl 5 ◌then◌
abbrev pub ◌then◌ :
    {C : Type 0}
    → Result Text (Unit {0}) × C
    → (C → Result Text (Unit {0}) × C)
    → Result Text (Unit {0}) × C
(ok _, c) then k = k c
(err e, c) then k = (err e, c)

module _ {C : Type 0} (runtime : RealtimeRuntime C) where
  unfoldable pub send_realtime_runtime_event :
      RuntimeLoopEventKind → Text → RealtimeMessage → Text → C → Result Text (Unit {0}) × C
  send_realtime_runtime_event kind topic source queued_message c =
      let (now, c1) = runtime.unix_now c in
      runtime.send (build_realtime_receipt topic source (text "received") queued_message now) c1
      then λ c2.
          let (fate, c3) = runtime.submit kind c2 in
          let (then_now, c4) = runtime.unix_now c3 in
          let (status, message) = outcome fate in
          runtime.send (build_realtime_receipt topic source status message then_now) c4

  abbrev pub send_event :
      RealtimeMessage → Option (RuntimeLoopEventKind × Text × Text) → C → Result Text (Unit {0}) × C
  send_event message none c = (ok tt, c)
  send_event message (some (kind, topic, queued_message)) c =
      send_realtime_runtime_event kind topic message queued_message c

  abbrev pub serve_task : RealtimeMessage → RealtimeRuntimeTask → C → Result Text (Unit {0}) × C
  serve_task message (pong_task pong) c = runtime.send pong c
  serve_task message no_task c = send_event message (runtime_loop_event_for_task no_task) c
  serve_task message config_check_task c =
      send_event message (runtime_loop_event_for_task config_check_task) c
  serve_task message force_reload_task c =
      send_event message (runtime_loop_event_for_task force_reload_task) c
  serve_task message user_sync_task c =
      send_event message (runtime_loop_event_for_task user_sync_task) c
  serve_task message hello_ack_task c =
      send_event message (runtime_loop_event_for_task hello_ack_task) c
  serve_task message (error_task e) c =
      send_event message (runtime_loop_event_for_task (error_task e)) c

  -- The loop over what is received: the connection closes, or an error is read.
  unfoldable pub serve_messages :
      List RealtimeMessage → Result Text (Unit {0}) → C → Result Text (Unit {0}) × C
  serve_messages [] ending c = (ending, c)
  serve_messages (message ∷ messages) ending c =
      let (now, c1) = runtime.unix_now c in
      serve_task message (realtime_runtime_task message now) c1 then λ c2.
      serve_messages messages ending c2

  unfoldable pub serve_realtime_runtime_transport :
      RealtimeOptions
      → List RealtimeMessage
      → Result Text (Unit {0})
      → C
      → Result Text (Unit {0}) × C
  serve_realtime_runtime_transport options messages ending c =
      let (now, c1) = runtime.unix_now c in
      runtime.send (ping options now none) c1 then λ c2. serve_messages messages ending c2
