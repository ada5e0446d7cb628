-- ===== src/SubscriptionProxy/Manager/Reached.antt =====
-- What holds of the manager of src/subscription_proxy.rs after any configurations are applied to it
-- and its servers started.
use kelinode_rs.Prelude.{
  Bool, true, false, not, ◌||◌, Option, none, some, is_empty, ◌≡◌, refl, sym, ap, if_intro, arith,
}
use mathlib.Core.Path.{subst}
use kelinode_rs.Prelude.Text.{Text}
use kelinode_rs.Prelude.Result.{Result, ok, err}
use kelinode_rs.SubscriptionProxy.{
  SubscriptionProxyConfig, SubscriptionProxyStatus, SubscriptionProxyApplyPlan,
  SubscriptionProxyServeMode, https, http_fallback,
}
use kelinode_rs.SubscriptionProxy.Normalize.{ConfigError, normalize_subscription_proxy_config}
use kelinode_rs.SubscriptionProxy.Certificate.{
  Files, plan_subscription_proxy_serve_mode,
  prepare_subscription_proxy_certificate_status_with_file_writes,
}
use kelinode_rs.SubscriptionProxy.Apply.{
  plan_subscription_proxy_apply, nothing_to_serve, is_current, disabled_plan, unchanged_plan,
  mode_plan, merge_subscription_proxy_status,
}
use kelinode_rs.SubscriptionProxy.Manager.{
  SubscriptionProxyRuntimeManager, SubscriptionProxyServerHandle, Servers, ApplyError, new,
  apply_normalized, apply_and_start_with_file_system, sync_servers_for_apply_plan, settled, applied,
  synced, http_spawned, main_spawned, after_http, stop_servers, stop_main_server,
}
use kelinode_rs.SubscriptionProxy.Manager.Fingerprint.{fingerprint-nonempty}
use kelinode_rs.SubscriptionProxy.Manager.Restart.{start_lem, start_refused, start_refused_again}

abbrev pub is_up : Option SubscriptionProxyServerHandle → Bool
is_up none = false
is_up (some _) = true

-- A manager that reports that it is running has a main server, and one that has a server has a
-- fingerprint.
pub record IsConsistent (m : SubscriptionProxyRuntimeManager) : Type 0 where
  pub served : (not m.status.running || is_up m.main_server) ≡ true
  pub marked :
      (not (is_up m.main_server || is_up m.http_server) || not (is_empty m.fingerprint)) ≡ true

module _ {E : Type 0} (files : Files E) (servers : Servers E) where
  -- The managers that are driven by `apply_and_start_with_file_system` alone: a new one, and what
  -- that leaves, failed or not, in whatever state the machine is by then. `apply`, which plans and
  -- starts no server, is only a part of it here.
  pub data Reached : SubscriptionProxyRuntimeManager → Type 0 where
    created : Reached new
    then_applied :
        {m m1 : SubscriptionProxyRuntimeManager} (r : Result ApplyError SubscriptionProxyApplyPlan)
        (source : SubscriptionProxyConfig) (e e1 : E)
        → Reached m
        → apply_and_start_with_file_system files servers m source e ≡ (r, m1, e1)
        → Reached m1

  abbrev Settles :
      Result ApplyError SubscriptionProxyApplyPlan × SubscriptionProxyRuntimeManager × E → Type 0
  Settles o = IsConsistent o.1

  -- A manager with a fingerprint that does not report that it is running.
  stopped-IsConsistent :
      (m : SubscriptionProxyRuntimeManager)
      → m.status.running ≡ false
      → is_empty m.fingerprint ≡ false
      → IsConsistent m
  stopped-IsConsistent m stopped marked = record {
    served = ground (arith, stopped);
    marked = ground (arith, marked);
  }

  module _ (config : SubscriptionProxyConfig) (p : SubscriptionProxyApplyPlan) where
    abbrev Syncs : Result Text (Unit {0}) × SubscriptionProxyRuntimeManager × E → Type 0
    Syncs r = Settles (synced files servers p r)

    main-Syncs :
        (m : SubscriptionProxyRuntimeManager) (r : Result Text SubscriptionProxyServerHandle × E)
        → is_empty m.fingerprint ≡ false
        → Syncs (main_spawned servers m r)
    main-Syncs m (ok handle, e) h = record { served = ground arith; marked = ground (arith, h) }
    main-Syncs m (err error, e) h = stopped-IsConsistent _ refl h

    start-Syncs :
        (mode : SubscriptionProxyServeMode) (m : SubscriptionProxyRuntimeManager)
        (r : Result Text (Option SubscriptionProxyServerHandle) × E)
        → is_empty m.fingerprint ≡ false
        → Syncs (after_http servers config (some mode) (http_spawned servers m r))
    start-Syncs mode m (err error, e) h = stopped-IsConsistent _ refl h
    start-Syncs https m (ok handle, e) h = main-Syncs _ _ h
    start-Syncs http_fallback m (ok handle, e) h = main-Syncs _ _ h

    challenge-Syncs :
        (m : SubscriptionProxyRuntimeManager)
        (r : Result Text (Option SubscriptionProxyServerHandle) × E)
        → m.status.running ≡ false
        → is_empty m.fingerprint ≡ false
        → Syncs (http_spawned servers m r)
    challenge-Syncs m (ok handle, e) stopped h = stopped-IsConsistent _ stopped h
    challenge-Syncs m (err error, e) stopped h = stopped-IsConsistent _ refl h

  module _ (config c2 : SubscriptionProxyConfig) (m : SubscriptionProxyRuntimeManager)
      (status : SubscriptionProxyStatus) where
    abbrev Applied : SubscriptionProxyApplyPlan × E → Type 0
    Applied q = Settles (applied files servers config (settled files m q))

    mode-Applied :
        (mode : Result Text SubscriptionProxyServeMode) (e : E)
        → Applied (mode_plan c2 status mode, e)
    unfolding sync_servers_for_apply_plan stop_main_server merge_subscription_proxy_status
    mode-Applied (ok mode) e = start-Syncs config _ mode _ _ (fingerprint-nonempty c2)
    mode-Applied (err error) e = challenge-Syncs config _ _ _ refl (fingerprint-nonempty c2)

    unchanged-Applied : (e : E) → IsConsistent m → Applied (unchanged_plan c2 status, e)
    unfolding sync_servers_for_apply_plan merge_subscription_proxy_status
    unchanged-Applied e h =
        let nonempty = fingerprint-nonempty c2 in
        record { served = h.served; marked = ground (arith, nonempty) }

    disabled-Applied : (e : E) → Applied (disabled_plan, e)
    unfolding sync_servers_for_apply_plan stop_servers stop_main_server
    disabled-Applied e = record { served = refl; marked = refl }

    plan-Applied :
        (e : E)
        → IsConsistent m
        → Applied (plan_subscription_proxy_apply files c2 m.fingerprint status e)
    unfolding plan_subscription_proxy_apply
    plan-Applied e h =
        if_intro Applied (nothing_to_serve c2) (λ _. disabled-Applied e)
          (λ _.
            if_intro Applied (is_current files m.fingerprint c2) (λ _. unchanged-Applied e h)
              (λ _.
                mode-Applied (plan_subscription_proxy_serve_mode files c2 e).0
                  (plan_subscription_proxy_serve_mode files c2 e).1))

  normalized-Settles :
      (config c2 : SubscriptionProxyConfig) (m : SubscriptionProxyRuntimeManager) (e : E)
      → IsConsistent m
      → Settles (applied files servers config (apply_normalized files m c2 e))
  unfolding apply_normalized
  normalized-Settles config c2 m e h =
      let prepared = prepare_subscription_proxy_certificate_status_with_file_writes files c2 e in
      plan-Applied config c2 m prepared.0 prepared.1 h

  module _ (source : SubscriptionProxyConfig) (m : SubscriptionProxyRuntimeManager) (e : E) where
    abbrev Starts : Type 0
    Starts = Settles (apply_and_start_with_file_system files servers m source e)

    apply-IsConsistent : IsConsistent m → Starts
    apply-IsConsistent h = first (normalize_subscription_proxy_config source) refl
      where
        second :
            (c : SubscriptionProxyConfig) (n : Result ConfigError SubscriptionProxyConfig)
            → normalize_subscription_proxy_config source ≡ ok c
            → normalize_subscription_proxy_config c ≡ n
            → Starts
        second c (ok c2) q r =
            subst Settles (sym (start_lem files servers source servers c c2 m e q r))
              (normalized-Settles c c2 m e h)
        second c (err error) q r =
            subst Settles (sym (start_refused_again files servers source c error m e q r)) h

        first :
            (n : Result ConfigError SubscriptionProxyConfig)
            → normalize_subscription_proxy_config source ≡ n
            → Starts
        first (ok c) q = second c (normalize_subscription_proxy_config c) q refl
        first (err error) q = subst Settles (sym (start_refused files servers source error m e q)) h

  -- A manager whose configurations were all given by `apply_and_start_with_file_system`, in whatever
  -- order and whatever the files and the sockets did, with failures among them, reports that the proxy
  -- is running only if it has a main server, and has a server only if it has a fingerprint. Nothing is
  -- said of a manager on which `apply` was called by itself, which starts no server.
  pub Reached-IsConsistent : (m : SubscriptionProxyRuntimeManager) → Reached m → IsConsistent m
  Reached-IsConsistent m created = record { served = refl; marked = refl }
  Reached-IsConsistent m (then_applied r source e e1 before step) =
      subst IsConsistent (ap (λ o. o.1) step)
        (apply-IsConsistent source _ e (Reached-IsConsistent _ before))
