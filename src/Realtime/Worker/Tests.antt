-- ===== src/Realtime/Worker/Tests.antt =====
-- A run of the worker of src/runner.rs over a connection that closes after four messages are sent.
use kelinode_rs.Prelude.{ℕ, zero, suc, List, [], ◌∷◌, ◌++◌, map, All, ◌≡◌, refl}
use kelinode_rs.Prelude.Int.{pos}
use kelinode_rs.Prelude.Text.{Text, text, text_eq}
use kelinode_rs.Prelude.Result.{Result, ok, err}
use kelinode_rs.Runner.{RuntimeLoopEventKind, reload_event, refresh_users_event, applied}
use kelinode_rs.Realtime.{
  RealtimeMessage, RealtimeOptions, no_message, realtime_runtime_task, realtime_inbound_action,
  realtime_invalidate_action, should_force_realtime_config_reload, build_realtime_receipt,
}
use kelinode_rs.Realtime.Worker.{
  Fate, replied, receiver_closed, ◌then◌, serve_realtime_runtime_transport, serve_messages,
  send_realtime_runtime_event, runtime_loop_event_for_task,
}
use kelinode_rs.Realtime.Worker.Answers.{IsBrief, steady, sends, sent, serve_transport-answers}

abbrev options : RealtimeOptions
options = record {
  url = text "wss://panel.test/ws/node";
  token = text "token";
  node_id = 7;
  machine_id = 3;
  node_type = text "v2node";
  ping_interval = 30;
  reconnect_delay = 5;
  log_tag = [];
}

-- The messages sent, and how many more can be.
abbrev Log : Type 0
Log = List RealtimeMessage × ℕ

abbrev send : RealtimeMessage → Log → Result Text (Unit {0}) × Log
send m (log, zero) = (err (text "closed"), (log, zero))
send m (log, suc room) = (ok tt, (log ++ m ∷ [], room))

abbrev fate : RuntimeLoopEventKind → Fate
fate reload_event = replied (ok (applied (text "reload requested")))
fate refresh_users_event = receiver_closed

abbrev inbound : List RealtimeMessage
inbound =
    record no_message { message_type = text "ping" }
    ∷ record no_message {
      message_type = text "invalidate";
      topic = text "config";
      event_id = text "evt-1";
    }
    ∷ record no_message { message_type = text "invalidate"; topic = text "users" }
    ∷ []

abbrev log_of : Result Text (Unit {0}) × Log → List (Text × Text)
log_of (r, (log, room)) = map (λ m. (m.message_type, m.status)) log

served_run :
    log_of
      (serve_realtime_runtime_transport (steady send (pos 9) fate) options inbound (ok tt) ([], 4))
    ≡ (text "ping", [])
      ∷ (text "pong", [])
      ∷ (text "receipt", text "received")
      ∷ (text "receipt", text "applied")
      ∷ []
unfolding serve_realtime_runtime_transport serve_messages send_realtime_runtime_event
    runtime_loop_event_for_task realtime_runtime_task realtime_inbound_action
    realtime_invalidate_action should_force_realtime_config_reload build_realtime_receipt text_eq
served_run = refl

serve_transport-answers_example :
    (serve_realtime_runtime_transport (steady send (pos 9) fate) options inbound (ok tt) ([], 4) ≡ (
      sends send (pos 9) fate (sent send (pos 9) fate options inbound) ([], 4) then λ c.
      (ok tt, c)))
    × All IsBrief (sent send (pos 9) fate options inbound)
serve_transport-answers_example =
    serve_transport-answers send (pos 9) fate options inbound (ok tt) ([], 4)
