-- ===== src/SubscriptionProxy/Manager.antt =====
-- `SubscriptionProxyRuntimeManager` of src/subscription_proxy.rs: the two servers of the proxy, and
-- how a configuration starts and stops them. A server is spawned and stopped by the operations of
-- `Servers` over the state of the machine: those load TLS keys, bind sockets and start threads.
pub mod Fingerprint
pub mod Restart
pub mod Reached
use kelinode_rs.Prelude.{ℕ, Bool, true, false, Option, none, some, [], ◌∷◌, if◌then◌else◌}
use kelinode_rs.Prelude.Text.{Text, text}
use kelinode_rs.Prelude.Result.{Result, ok, err}
use kelinode_rs.SubscriptionProxy.{
  SubscriptionProxyConfig, SubscriptionProxyStatus, SubscriptionProxyApplyPlan,
  SubscriptionProxyApplyAction, disabled, unchanged, started, failed, SubscriptionProxyServeMode,
  SubscriptionProxyHttpServerPlan, SubscriptionProxyMainServerPlan, https, http_fallback,
}
use kelinode_rs.SubscriptionProxy.Route.{
  plan_subscription_proxy_http_server, plan_subscription_proxy_main_server,
}
use kelinode_rs.SubscriptionProxy.Normalize.{ConfigError, normalize_subscription_proxy_config}
use kelinode_rs.SubscriptionProxy.Certificate.{
  Files, default_status, prepare_subscription_proxy_certificate_status_with_file_writes,
}
use kelinode_rs.SubscriptionProxy.Apply.{
  merge_subscription_proxy_status, plan_subscription_proxy_apply,
}

-- The number stands for the thread that the handle stops.
pub record SubscriptionProxyServerHandle : Type 0 where
  pub listen : Text
  pub thread : ℕ

pub record SubscriptionProxyRuntimeManager : Type 0 where
  pub fingerprint : Text
  pub status : SubscriptionProxyStatus
  pub main_server : Option SubscriptionProxyServerHandle
  pub http_server : Option SubscriptionProxyServerHandle

abbrev pub new : SubscriptionProxyRuntimeManager
new = record { fingerprint = []; status = default_status; main_server = none; http_server = none }

-- What a spawned server answers with.
pub data Service : Type 0 where
  fallback tls : SubscriptionProxyMainServerPlan → Service
  challenges : SubscriptionProxyConfig → Service

pub record Servers (E : Type 0) : Type 0 where
  -- `load_subscription_proxy_tls_config` of the two files.
  pub load_tls : Text → Text → E → Result Text (Unit {0}) × E
  pub bind : Text → Service → E → Result Text SubscriptionProxyServerHandle × E
  -- The drop of a handle, which waits for its thread.
  pub stop : SubscriptionProxyServerHandle → E → E

pub data ApplyError : Type 0 where
  invalid_config : ConfigError → ApplyError
  no_server : Text → ApplyError

abbrev pub settled_fingerprint : SubscriptionProxyApplyPlan → SubscriptionProxyApplyAction → Text
settled_fingerprint plan disabled = []
settled_fingerprint plan unchanged = plan.fingerprint
settled_fingerprint plan started = plan.fingerprint
settled_fingerprint plan failed = plan.fingerprint

abbrev pub with_status :
    SubscriptionProxyStatus
    → SubscriptionProxyApplyPlan
    → SubscriptionProxyApplyAction
    → SubscriptionProxyApplyPlan
with_status status plan unchanged = record plan {
  status = merge_subscription_proxy_status status plan.status;
}
with_status status plan disabled = plan
with_status status plan started = plan
with_status status plan failed = plan

-- `apply` after the plan is made.
abbrev pub settle :
    SubscriptionProxyRuntimeManager
    → SubscriptionProxyApplyPlan
    → SubscriptionProxyApplyPlan × SubscriptionProxyRuntimeManager
settle manager planned =
    let plan = with_status manager.status planned planned.action in
    (
      plan,
      record manager {
        fingerprint = settled_fingerprint planned planned.action;
        status = plan.status;
      },
    )

module _ {E : Type 0} (files : Files E) where
  abbrev pub settled :
      SubscriptionProxyRuntimeManager
      → SubscriptionProxyApplyPlan × E
      → Result ApplyError SubscriptionProxyApplyPlan × SubscriptionProxyRuntimeManager × E
  settled manager (planned, e) = let (plan, m) = settle manager planned in (ok plan, m, e)

  abbrev pub planned :
      SubscriptionProxyRuntimeManager
      → SubscriptionProxyConfig
      → SubscriptionProxyStatus × E
      → SubscriptionProxyApplyPlan × E
  planned manager config (certificate_status, e) =
      plan_subscription_proxy_apply files config manager.fingerprint certificate_status e

  -- `apply` of a configuration that is normalised.
  unfoldable pub apply_normalized :
      SubscriptionProxyRuntimeManager
      → SubscriptionProxyConfig
      → E
      → Result ApplyError SubscriptionProxyApplyPlan × SubscriptionProxyRuntimeManager × E
  apply_normalized manager config e = settled manager (
      planned manager config
        (prepare_subscription_proxy_certificate_status_with_file_writes files config e))

  unfoldable pub apply :
      SubscriptionProxyRuntimeManager
      → SubscriptionProxyConfig
      → E
      → Result ApplyError SubscriptionProxyApplyPlan × SubscriptionProxyRuntimeManager × E
  apply manager source e =
      elim (normalize_subscription_proxy_config source)
        as (λ _.
          Result ApplyError SubscriptionProxyApplyPlan × SubscriptionProxyRuntimeManager × E) [
            | err error ↦ (err (invalid_config error), manager, e)
            | ok config ↦ apply_normalized manager config e
          ]

module _ {E : Type 0} (servers : Servers E) where
  abbrev stop_server : Option SubscriptionProxyServerHandle → E → E
  stop_server none e = e
  stop_server (some handle) e = servers.stop handle e

  unfoldable pub stop_main_server :
      SubscriptionProxyRuntimeManager → E → SubscriptionProxyRuntimeManager × E
  stop_main_server m e = (record m { main_server = none }, stop_server m.main_server e)

  unfoldable pub stop_servers :
      SubscriptionProxyRuntimeManager → E → SubscriptionProxyRuntimeManager × E
  unfolding stop_main_server
  stop_servers m e =
      let (m1, e1) = stop_main_server m e in
      (record m1 { http_server = none }, stop_server m1.http_server e1)

  unfoldable pub spawn_subscription_proxy_main_http_fallback_server :
      SubscriptionProxyMainServerPlan → E → Result Text SubscriptionProxyServerHandle × E
  spawn_subscription_proxy_main_http_fallback_server plan e =
      elim plan.mode as (λ _. Result Text SubscriptionProxyServerHandle × E) [
        | http_fallback ↦ servers.bind plan.listen (fallback plan) e
        | https ↦ (
          err (text "subscription proxy main server only supports HTTP fallback in this runtime"),
          e,
        )
      ]

  abbrev tls_loaded :
      SubscriptionProxyMainServerPlan
      → Result Text (Unit {0}) × E
      → Result Text SubscriptionProxyServerHandle × E
  tls_loaded plan (ok _, e) = servers.bind plan.listen (tls plan) e
  tls_loaded plan (err error, e) = (err error, e)

  unfoldable pub spawn_subscription_proxy_main_https_server :
      SubscriptionProxyMainServerPlan → E → Result Text SubscriptionProxyServerHandle × E
  spawn_subscription_proxy_main_https_server plan e =
      elim plan.mode as (λ _. Result Text SubscriptionProxyServerHandle × E) [
        | https ↦ tls_loaded plan (servers.load_tls plan.cert_file plan.key_file e)
        | http_fallback ↦ (err (text "subscription proxy HTTPS server requires https mode"), e)
      ]

  abbrev as_option :
      Result Text SubscriptionProxyServerHandle × E
      → Result Text (Option SubscriptionProxyServerHandle) × E
  as_option (ok handle, e) = (ok (some handle), e)
  as_option (err error, e) = (err error, e)

  unfoldable pub spawn_subscription_proxy_http_challenge_server :
      SubscriptionProxyConfig → E → Result Text (Option SubscriptionProxyServerHandle) × E
  spawn_subscription_proxy_http_challenge_server config e =
      elim (plan_subscription_proxy_http_server config)
        as (λ _. Result Text (Option SubscriptionProxyServerHandle) × E) [
          | none ↦ (ok none, e)
          | some plan ↦ as_option (
              servers.bind plan.listen
                (challenges (record config { challenge_dir = plan.challenge_dir })) e)
        ]

  -- `self.http_server = spawn(..)?`: the new server is spawned, and then the old one is dropped.
  abbrev pub http_spawned :
      SubscriptionProxyRuntimeManager
      → Result Text (Option SubscriptionProxyServerHandle) × E
      → Result Text (Unit {0}) × SubscriptionProxyRuntimeManager × E
  http_spawned m (err error, e) = (err error, m, e)
  http_spawned m (ok handle, e) =
      (ok tt, record m { http_server = handle }, stop_server m.http_server e)

  abbrev pub main_spawned :
      SubscriptionProxyRuntimeManager
      → Result Text SubscriptionProxyServerHandle × E
      → Result Text (Unit {0}) × SubscriptionProxyRuntimeManager × E
  main_spawned m (err error, e) = (err error, m, e)
  main_spawned m (ok handle, e) =
      (ok tt, record m { main_server = some handle }, stop_server m.main_server e)

  abbrev pub start_main :
      SubscriptionProxyConfig
      → Option SubscriptionProxyServeMode
      → SubscriptionProxyRuntimeManager
      → E
      → Result Text (Unit {0}) × SubscriptionProxyRuntimeManager × E
  start_main config none m e = let (m', e') = stop_main_server m e in (ok tt, m', e')
  start_main config (some http_fallback) m e = main_spawned m (
      spawn_subscription_proxy_main_http_fallback_server
        (plan_subscription_proxy_main_server config http_fallback) e)
  start_main config (some https) m e = main_spawned m (
      spawn_subscription_proxy_main_https_server (plan_subscription_proxy_main_server config https)
        e)

  abbrev pub after_http :
      SubscriptionProxyConfig
      → Option SubscriptionProxyServeMode
      → Result Text (Unit {0}) × SubscriptionProxyRuntimeManager × E
      → Result Text (Unit {0}) × SubscriptionProxyRuntimeManager × E
  after_http config mode (err error, m, e) = (err error, m, e)
  after_http config mode (ok _, m, e) = start_main config mode m e

  abbrev pub sync_action :
      SubscriptionProxyConfig
      → SubscriptionProxyApplyPlan
      → SubscriptionProxyApplyAction
      → SubscriptionProxyRuntimeManager
      → E
      → Result Text (Unit {0}) × SubscriptionProxyRuntimeManager × E
  sync_action config plan disabled m e = let (m', e') = stop_servers m e in (ok tt, m', e')
  sync_action config plan unchanged m e = (ok tt, m, e)
  sync_action config plan failed m e =
      let (m', e') = stop_main_server m e in
      http_spawned m' (spawn_subscription_proxy_http_challenge_server config e')
  sync_action config plan started m e =
      after_http config plan.serve_mode
        (http_spawned m (spawn_subscription_proxy_http_challenge_server config e))

  unfoldable pub sync_servers_for_apply_plan :
      SubscriptionProxyRuntimeManager
      → SubscriptionProxyConfig
      → SubscriptionProxyApplyPlan
      → E
      → Result Text (Unit {0}) × SubscriptionProxyRuntimeManager × E
  sync_servers_for_apply_plan m config plan e = sync_action config plan plan.action m e

module _ {E : Type 0} (files : Files E) (servers : Servers E) where
  -- The status of a failure to start.
  abbrev pub failed_status : SubscriptionProxyStatus → Text → SubscriptionProxyStatus
  failed_status status error = record status {
    status = text "error";
    running = false;
    mode = text "error";
    last_error = error;
  }

  abbrev pub synced :
      SubscriptionProxyApplyPlan
      → Result Text (Unit {0}) × SubscriptionProxyRuntimeManager × E
      → Result ApplyError SubscriptionProxyApplyPlan × SubscriptionProxyRuntimeManager × E
  synced plan (ok _, m, e) = (ok plan, m, e)
  synced plan (err error, m, e) =
      (err (no_server error), record m { status = failed_status m.status error }, e)

  abbrev pub applied :
      SubscriptionProxyConfig
      → Result ApplyError SubscriptionProxyApplyPlan × SubscriptionProxyRuntimeManager × E
      → Result ApplyError SubscriptionProxyApplyPlan × SubscriptionProxyRuntimeManager × E
  applied config (err error, m, e) = (err error, m, e)
  applied config (ok plan, m, e) = synced plan (sync_servers_for_apply_plan servers m config plan e)

  -- `apply` normalises the normalised configuration again.
  unfoldable pub apply_and_start_with_file_system :
      SubscriptionProxyRuntimeManager
      → SubscriptionProxyConfig
      → E
      → Result ApplyError SubscriptionProxyApplyPlan × SubscriptionProxyRuntimeManager × E
  apply_and_start_with_file_system m source e =
      elim (normalize_subscription_proxy_config source)
        as (λ _.
          Result ApplyError SubscriptionProxyApplyPlan × SubscriptionProxyRuntimeManager × E) [
            | err error ↦ (err (invalid_config error), m, e)
            | ok config ↦ applied config (apply files m config e)
          ]
