-- ===== src/Realtime.antt =====
-- src/realtime.rs: the messages of the panel over the websocket, what they ask for, the receipts that
-- answer them. Options has the options of the connection, and Worker the loop of src/runner.rs that
-- serves it; Worker/Answers has the proofs.
pub mod Options
pub mod Worker
use kelinode_rs.Prelude.{
  ℕ, Bool, true, false, not, ◌&&◌, ◌||◌, Option, none, some, [], ◌∷◌, ◌++◌, ltb, leb, ◌==◌,
  if◌then◌else◌, is_empty, take, length,
}
use kelinode_rs.Prelude.Int.{ℤ, pos}
use kelinode_rs.Prelude.Text.{Text, text, text_eq, trim}
use kelinode_rs.Prelude.Decimal.{decimal, parse_usize}
use kelinode_rs.Prelude.Result.{Result, ok, err}
use kelinode_rs.Panel.{Value, number, string, other, RealtimeBaseConfig, BaseConfig, NodeInfo}
use kelinode_rs.Machine.{NodeConfig}

abbrev pub reason_subscription_proxy_cert_state_changed : Text
reason_subscription_proxy_cert_state_changed = text "subscription_proxy.cert_state_changed"

abbrev pub reason_server_machine_bound : Text
reason_server_machine_bound = text "admin.server_machine.bound"

pub record RealtimeMessage : Type 0 where
  pub message_type : Text
  pub message : Text
  pub event_id : Text
  pub topic : Text
  pub reason : Text
  pub status : Text
  pub revision : ℤ
  pub ts : ℤ
  pub server_id : ℕ
  pub token : Text
  pub node_id : Text
  pub machine_id : ℕ
  pub node_type : Text
  pub health : Option Value

-- src/config.rs
pub record RealtimeConfig : Type 0 where
  pub enabled : Bool
  pub url : Text
  pub ping_interval : ℕ
  pub reconnect_interval : ℕ

-- A `Duration` is a number of seconds.
pub record RealtimeOptions : Type 0 where
  pub url : Text
  pub token : Text
  pub node_id : ℕ
  pub machine_id : ℕ
  pub node_type : Text
  pub ping_interval : ℕ
  pub reconnect_delay : ℕ
  pub log_tag : Text

pub record RealtimeUserSummary : Type 0 where
  pub deleted : ℕ
  pub added : ℕ
  pub updated : ℕ

pub data RealtimeInboundAction : Type 0 where
  ignore pong_action config_check force_reload user_sync hello_ack : RealtimeInboundAction
  error_action : Text → RealtimeInboundAction

pub data RealtimeRuntimeTask : Type 0 where
  pong_task : RealtimeMessage → RealtimeRuntimeTask
  no_task config_check_task force_reload_task user_sync_task hello_ack_task : RealtimeRuntimeTask
  error_task : Text → RealtimeRuntimeTask

-- `RealtimeMessage::default()`
abbrev pub no_message : RealtimeMessage
no_message = record {
  message_type = [];
  message = [];
  event_id = [];
  topic = [];
  reason = [];
  status = [];
  revision = pos 0;
  ts = pos 0;
  server_id = 0;
  token = [];
  node_id = [];
  machine_id = 0;
  node_type = [];
  health = none;
}

abbrev pub ping : RealtimeOptions → ℤ → Option Value → RealtimeMessage
ping options ts health = record no_message {
  message_type = text "ping";
  ts = ts;
  token = options.token;
  node_id = decimal options.node_id;
  machine_id = options.machine_id;
  node_type = options.node_type;
  health = health;
}

abbrev pub pong : ℤ → RealtimeMessage
pong ts = record no_message { message_type = text "pong"; ts = ts }

unfoldable pub should_force_realtime_config_reload : RealtimeMessage → Bool
should_force_realtime_config_reload message =
    text_eq message.reason reason_subscription_proxy_cert_state_changed
    || text_eq message.reason reason_server_machine_bound

unfoldable pub realtime_invalidate_action : RealtimeMessage → RealtimeInboundAction
unfolding should_force_realtime_config_reload
realtime_invalidate_action message =
    if text_eq message.topic (text "config") && should_force_realtime_config_reload message
    then force_reload
    else if text_eq message.topic (text "config")
    then config_check
    else if text_eq message.topic (text "users")
    then user_sync
    else ignore

unfoldable pub realtime_inbound_action : RealtimeMessage → RealtimeInboundAction
unfolding realtime_invalidate_action
realtime_inbound_action message =
    if text_eq message.message_type (text "hello_ack")
    then hello_ack
    else if text_eq message.message_type (text "ping")
    then pong_action
    else if text_eq message.message_type (text "error")
    then error_action message.message
    else if text_eq message.message_type (text "invalidate")
    then realtime_invalidate_action message
    else ignore

abbrev pub task_of : ℤ → RealtimeInboundAction → RealtimeRuntimeTask
task_of now_ts ignore = no_task
task_of now_ts pong_action = pong_task (pong now_ts)
task_of now_ts config_check = config_check_task
task_of now_ts force_reload = force_reload_task
task_of now_ts user_sync = user_sync_task
task_of now_ts (error_action message) = error_task message
task_of now_ts hello_ack = hello_ack_task

unfoldable pub realtime_runtime_task : RealtimeMessage → ℤ → RealtimeRuntimeTask
unfolding realtime_inbound_action
realtime_runtime_task message now_ts = task_of now_ts (realtime_inbound_action message)

-- `chars().count()` and `chars().take(237)` are on the characters.
unfoldable pub truncate_realtime_receipt_message : Text → Text
truncate_realtime_receipt_message message =
    let trimmed = trim message in
    if leb (length trimmed) 240 then trimmed else take 237 trimmed ++ text "..."

unfoldable pub build_realtime_receipt : Text → RealtimeMessage → Text → Text → ℤ → RealtimeMessage
build_realtime_receipt topic source status message ts = record no_message {
  message_type = text "receipt";
  topic = topic;
  event_id = source.event_id;
  reason = source.reason;
  status = status;
  message = truncate_realtime_receipt_message message;
  ts = ts;
}

unfoldable pub format_realtime_user_summary : RealtimeUserSummary → Text
format_realtime_user_summary summary =
    text "deleted="
    ++ (decimal summary.deleted
        ++ (text " added="
            ++ (decimal summary.added ++ (text " updated=" ++ decimal summary.updated))))
