-- ===== src/SubscriptionProxy/Manager/Restart.antt =====
-- What the manager of src/subscription_proxy.rs does with a configuration that it failed to start.
use kelinode_rs.Prelude.{false, ◌≡◌, refl, sym, ap, ◌∙◌, inl, inr}
use kelinode_rs.Prelude.Text.{Text}
use kelinode_rs.Prelude.Result.{Result, ok, err}
use kelinode_rs.SubscriptionProxy.{
  SubscriptionProxyConfig, SubscriptionProxyApplyPlan, SubscriptionProxyApplyAction, disabled,
  unchanged, started, failed,
}
use kelinode_rs.SubscriptionProxy.Normalize.{ConfigError, normalize_subscription_proxy_config}
use kelinode_rs.SubscriptionProxy.Certificate.{
  Files, prepare_subscription_proxy_certificate_status_with_file_writes,
}
use kelinode_rs.SubscriptionProxy.Apply.{
  plan_subscription_proxy_apply, subscription_proxy_fingerprint, nothing_to_serve, unchanged_plan,
  merge_subscription_proxy_status,
}
use kelinode_rs.SubscriptionProxy.Manager.{
  SubscriptionProxyRuntimeManager, Servers, ApplyError, no_server, invalid_config, apply,
  apply_normalized, apply_and_start_with_file_system, sync_servers_for_apply_plan, settle, synced,
  applied, settled, settled_fingerprint, sync_action, stop_servers,
}
use kelinode_rs.SubscriptionProxy.Manager.Fingerprint.{
  HasStarted, again, Planned, plan-Planned, sync_action-fingerprint,
}

-- The result of a start that was tried again.
abbrev pub Outcome : Type 0 → Type 0
Outcome E = Result ApplyError SubscriptionProxyApplyPlan × SubscriptionProxyRuntimeManager × E

module _ {E : Type 0} (files : Files E) (servers : Servers E) where
  -- A failure keeps the fingerprint that the servers were started with.
  failure-kept :
      (p : SubscriptionProxyApplyPlan)
      (r : Result Text (Unit {0}) × SubscriptionProxyRuntimeManager × E) (x : Text)
      (m : SubscriptionProxyRuntimeManager) (e : E)
      → synced files servers p r ≡ (err (no_server x), m, e)
      → (m.fingerprint ≡ r.1.fingerprint) × (m.status.running ≡ false)
  failure-kept p (ok _, m0, e0) x m e h = absurd (ok_or_failed h)
    where
      ok_or_failed : synced files servers p (ok tt, m0, e0) ≡ (err (no_server x), m, e) → ⊥
      ok_or_failed h = cc (ap (λ o. o.0) h)
  failure-kept p (err error, m0, e0) x m e h =
      (sym (ap (λ o. o.1.fingerprint) h), sym (ap (λ o. o.1.status.running) h))

  module _ (config c2 : SubscriptionProxyConfig) (m : SubscriptionProxyRuntimeManager) where
    abbrev Restarts : SubscriptionProxyRuntimeManager → Type 0
    Restarts m1 = HasStarted c2 m1 × (m1.status.running ≡ false)

    -- The plan and the manager after a plan is settled.
    abbrev settled_plan : SubscriptionProxyApplyPlan → SubscriptionProxyApplyPlan
    settled_plan p = (settle m p).0

    abbrev settled_manager : SubscriptionProxyApplyPlan → SubscriptionProxyRuntimeManager
    settled_manager p = (settle m p).1

    kept-Restarts :
        (p : SubscriptionProxyApplyPlan) (e e1 : E) (x : Text)
        (m1 : SubscriptionProxyRuntimeManager)
        → nothing_to_serve c2 ≡ false
        → settled_fingerprint p p.action ≡ subscription_proxy_fingerprint c2
        → applied files servers config (settled files m (p, e)) ≡ (err (no_server x), m1, e1)
        → Restarts m1
    unfolding sync_servers_for_apply_plan
    kept-Restarts p e e1 x m1 serves same h =
        let plan = settled_plan p in
        let parts =
          failure-kept plan (sync_action servers config plan plan.action (settled_manager p) e) x m1
            e1 h in
        (
          record {
            serves = serves;
            current =
                parts.0
                ∙ sync_action-fingerprint servers config plan plan.action (settled_manager p) e
                ∙ same;
          },
          parts.1,
        )

    failed-Restarts :
        (a : SubscriptionProxyApplyAction) (p : SubscriptionProxyApplyPlan) (e e1 : E) (x : Text)
        (m1 : SubscriptionProxyRuntimeManager)
        → Planned files c2 (record p { action = a }, e)
        → applied files servers config (settled files m (record p { action = a }, e))
          ≡ (err (no_server x), m1, e1)
        → Restarts m1
    unfolding sync_servers_for_apply_plan stop_servers
    failed-Restarts disabled p e e1 x m1 h k = cc (ap (λ o. o.0) k)
    failed-Restarts unchanged p e e1 x m1 h k = cc (ap (λ o. o.0) k)
    failed-Restarts started p e e1 x m1 (inl (inl h)) k = cc
    failed-Restarts started p e e1 x m1 (inl (inr h)) k = cc
    failed-Restarts started p e e1 x m1 (inr (h, same)) k =
        kept-Restarts (record p { action = started }) e e1 x m1 h same k
    failed-Restarts failed p e e1 x m1 (inl (inl h)) k = cc
    failed-Restarts failed p e e1 x m1 (inl (inr h)) k = cc
    failed-Restarts failed p e e1 x m1 (inr (h, same)) k =
        kept-Restarts (record p { action = failed }) e e1 x m1 h same k

    -- `apply_normalized` as a start that failed.
    normalized-Restarts :
        (e e1 : E) (x : Text) (m1 : SubscriptionProxyRuntimeManager)
        → applied files servers config (apply_normalized files m c2 e) ≡ (err (no_server x), m1, e1)
        → Restarts m1
    unfolding apply_normalized
    normalized-Restarts e e1 x m1 h =
        let prepared = prepare_subscription_proxy_certificate_status_with_file_writes files c2 e in
        let p = plan_subscription_proxy_apply files c2 m.fingerprint prepared.0 prepared.1 in
        failed-Restarts p.0.action p.0 p.1 e1 x m1
          (plan-Planned files c2 m.fingerprint prepared.0 prepared.1) h

    -- The next start of the same configuration.
    next_outcome :
        (m1 : SubscriptionProxyRuntimeManager) (e2 : E)
        → Restarts m1
        → let prepared =
            prepare_subscription_proxy_certificate_status_with_file_writes files c2 e2 in
          let status = merge_subscription_proxy_status m1.status prepared.0 in
          applied files servers config (apply_normalized files m1 c2 e2) ≡ (
            ok (record (unchanged_plan c2 prepared.0) { status = status }),
            record m1 { fingerprint = subscription_proxy_fingerprint c2; status = status },
            prepared.1,
          )
    unfolding apply_normalized sync_servers_for_apply_plan
    next_outcome m1 e2 (h, stopped) =
        let prepared = prepare_subscription_proxy_certificate_status_with_file_writes files c2 e2 in
        ap (λ q. applied files servers config (settled files m1 q))
          (again files c2 m1 prepared.0 prepared.1 h)

-- A start of the same configuration that asks no server, keeps the servers that the manager has, and
-- reports that nothing is running.
pub record IsIdle {E : Type 0} (files : Files E) (servers : Servers E)
    (source : SubscriptionProxyConfig) (e : E) (m : SubscriptionProxyRuntimeManager)
    (plan : SubscriptionProxyApplyPlan) : Type 0 where
  pub answered : (apply_and_start_with_file_system files servers m source e).0 ≡ ok plan
  pub action : plan.action ≡ unchanged
  pub no_main :
      (apply_and_start_with_file_system files servers m source e).1.main_server ≡ m.main_server
  pub no_http :
      (apply_and_start_with_file_system files servers m source e).1.http_server ≡ m.http_server
  pub stopped : (apply_and_start_with_file_system files servers m source e).1.status.running ≡ false
  pub unasked :
      (others : Servers E)
      → apply_and_start_with_file_system files others m source e
        ≡ apply_and_start_with_file_system files servers m source e

module _ {E : Type 0} (files : Files E) (servers : Servers E)
    (source : SubscriptionProxyConfig) where
  abbrev pub Start : Servers E → SubscriptionProxyRuntimeManager → E → Outcome E
  Start others m e = apply_and_start_with_file_system files others m source e

  pub start_lem :
      (others : Servers E) (c c2 : SubscriptionProxyConfig) (m : SubscriptionProxyRuntimeManager)
      (e : E)
      → normalize_subscription_proxy_config source ≡ ok c
      → normalize_subscription_proxy_config c ≡ ok c2
      → Start others m e ≡ applied files others c (apply_normalized files m c2 e)
  unfolding apply_and_start_with_file_system apply
  start_lem others c c2 m e h k = rw (h, apply_and_start_with_file_system, k, apply) refl

  pub start_refused :
      (error : ConfigError) (m : SubscriptionProxyRuntimeManager) (e : E)
      → normalize_subscription_proxy_config source ≡ err error
      → Start servers m e ≡ (err (invalid_config error), m, e)
  unfolding apply_and_start_with_file_system
  start_refused error m e h = rw (h, apply_and_start_with_file_system) refl

  pub start_refused_again :
      (c : SubscriptionProxyConfig) (error : ConfigError) (m : SubscriptionProxyRuntimeManager)
      (e : E)
      → normalize_subscription_proxy_config source ≡ ok c
      → normalize_subscription_proxy_config c ≡ err error
      → Start servers m e ≡ (err (invalid_config error), m, e)
  unfolding apply_and_start_with_file_system apply
  start_refused_again c error m e h k = rw (h, apply_and_start_with_file_system, k, apply) refl

  idle :
      (c c2 : SubscriptionProxyConfig) (m m1 : SubscriptionProxyRuntimeManager) (e e1 e2 : E)
      (x : Text)
      → normalize_subscription_proxy_config source ≡ ok c
      → normalize_subscription_proxy_config c ≡ ok c2
      → Start servers m e ≡ (err (no_server x), m1, e1)
      → (plan : SubscriptionProxyApplyPlan) × IsIdle files servers source e2 m1 plan
  unfolding merge_subscription_proxy_status
  idle c c2 m m1 e e1 e2 x h k failure =
      let restarts =
        normalized-Restarts files servers c c2 m e e1 x m1
          (sym (start_lem servers c c2 m e h k) ∙ failure) in
      let next = λ (others : Servers E).
        start_lem others c c2 m1 e2 h k ∙ next_outcome files others c c2 m m1 e2 restarts in
      let outcome = next servers in
      (
        _,
        record {
          answered = ap (λ o. o.0) outcome;
          action = refl;
          no_main = ap (λ o. o.1.main_server) outcome;
          no_http = ap (λ o. o.1.http_server) outcome;
          stopped = ap (λ o. o.1.status.running) outcome ∙ restarts.1;
          unasked = λ others. next others ∙ sym outcome;
        },
      )

  -- If a start fails since a server cannot be started, then the next start of the same configuration,
  -- whenever it comes, is answered by a plan of `Unchanged`: it asks no server to start, keeps those
  -- that the manager has, and reports that the proxy is not running.
  pub failed_start-IsIdle :
      (m m1 : SubscriptionProxyRuntimeManager) (e e1 e2 : E) (x : Text)
      → apply_and_start_with_file_system files servers m source e ≡ (err (no_server x), m1, e1)
      → (plan : SubscriptionProxyApplyPlan) × IsIdle files servers source e2 m1 plan
  failed_start-IsIdle m m1 e e1 e2 x h = first (normalize_subscription_proxy_config source) refl
    where
      second :
          (c : SubscriptionProxyConfig) (n : Result ConfigError SubscriptionProxyConfig)
          → normalize_subscription_proxy_config source ≡ ok c
          → normalize_subscription_proxy_config c ≡ n
          → (plan : SubscriptionProxyApplyPlan) × IsIdle files servers source e2 m1 plan
      second c (ok c2) q r = idle c c2 m m1 e e1 e2 x q r h
      second c (err error) q r =
          cc (ap (λ o. o.0) h, ap (λ o. o.0) (start_refused_again c error m e q r))

      first :
          (n : Result ConfigError SubscriptionProxyConfig)
          → normalize_subscription_proxy_config source ≡ n
          → (plan : SubscriptionProxyApplyPlan) × IsIdle files servers source e2 m1 plan
      first (ok c) q = second c (normalize_subscription_proxy_config c) q refl
      first (err error) q = cc (ap (λ o. o.0) h, ap (λ o. o.0) (start_refused error m e q))
