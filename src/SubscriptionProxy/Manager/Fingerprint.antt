-- ===== src/SubscriptionProxy/Manager/Fingerprint.antt =====
-- When the manager of src/subscription_proxy.rs keeps a fingerprint, and what a plan does with one
-- that it knows.
use kelinode_rs.Prelude.{
  ℕ, true, false, Option, none, some, [], ◌∷◌, ◌++◌, is_empty, ◌≡◌, refl, ◌∙◌, ◌⊎◌, inl, inr,
  if_intro,
}
use kelinode_rs.Prelude.Text.{Text, text_eq_iff, join}
use kelinode_rs.Prelude.Result.{Result, ok, err}
use kelinode_rs.SubscriptionProxy.{
  SubscriptionProxyConfig, SubscriptionProxyStatus, SubscriptionProxyApplyPlan,
  SubscriptionProxyApplyAction, disabled, unchanged, started, failed, SubscriptionProxyServeMode,
  https, http_fallback,
}
use kelinode_rs.SubscriptionProxy.Certificate.{Files, plan_subscription_proxy_serve_mode}
use kelinode_rs.SubscriptionProxy.Apply.{
  plan_subscription_proxy_apply, subscription_proxy_fingerprint, nothing_to_serve, is_current,
  unchanged_plan, mode_plan,
}
use kelinode_rs.SubscriptionProxy.Manager.{
  SubscriptionProxyRuntimeManager, Servers, settled_fingerprint, SubscriptionProxyServerHandle,
  http_spawned, main_spawned, start_main, after_http, sync_action, stop_servers, stop_main_server,
  spawn_subscription_proxy_http_challenge_server,
}

nonempty-append : (s t : Text) (c : ℕ) → is_empty (s ++ c ∷ t) ≡ false
nonempty-append [] t c = refl
nonempty-append (_ ∷ _) t c = refl

pub fingerprint-nonempty :
    (config : SubscriptionProxyConfig) → is_empty (subscription_proxy_fingerprint config) ≡ false
unfolding subscription_proxy_fingerprint join
fingerprint-nonempty config = nonempty-append _ _ 0

-- A manager that has the fingerprint of a configuration that serves something.
pub record HasStarted (config : SubscriptionProxyConfig) (m : SubscriptionProxyRuntimeManager)
    : Type 0 where
  pub serves : nothing_to_serve config ≡ false
  pub current : m.fingerprint ≡ subscription_proxy_fingerprint config

module _ {E : Type 0} (files : Files E) (config : SubscriptionProxyConfig) where
  pub again :
      (m : SubscriptionProxyRuntimeManager) (status : SubscriptionProxyStatus) (e : E)
      → HasStarted config m
      → plan_subscription_proxy_apply files config m.fingerprint status e
        ≡ (unchanged_plan config status, e)
  unfolding plan_subscription_proxy_apply
  again m status e h =
      let same : is_current files m.fingerprint config ≡ true =
        rw (h.current, fingerprint-nonempty config) ((text_eq_iff _ _).1 refl) in
      rw (h.serves, same) refl

  -- What a plan can be: one that starts no server, or one whose fingerprint is kept.
  abbrev pub Planned : SubscriptionProxyApplyPlan × E → Type 0
  Planned (p, e) =
      ((p.action ≡ disabled) ⊎ (p.action ≡ unchanged))
      ⊎ ((nothing_to_serve config ≡ false)
          × (settled_fingerprint p p.action ≡ subscription_proxy_fingerprint config))

  mode-Planned :
      (status : SubscriptionProxyStatus) (mode : Result Text SubscriptionProxyServeMode) (e : E)
      → nothing_to_serve config ≡ false
      → Planned (mode_plan config status mode, e)
  mode-Planned status (ok mode) e h = inr (h, refl)
  mode-Planned status (err error) e h = inr (h, refl)

  pub plan-Planned :
      (current : Text) (status : SubscriptionProxyStatus) (e : E)
      → Planned (plan_subscription_proxy_apply files config current status e)
  unfolding plan_subscription_proxy_apply
  plan-Planned current status e =
      if_intro Planned (nothing_to_serve config) (λ _. inl (inl refl))
        (λ h.
          if_intro Planned (is_current files current config) (λ _. inl (inr refl))
            (λ _.
              mode-Planned status (plan_subscription_proxy_serve_mode files config e).0
                (plan_subscription_proxy_serve_mode files config e).1 h))

-- Starting and stopping servers leaves the fingerprint.
module _ {E : Type 0} (servers : Servers E) where
  http_spawned-fingerprint :
      (m : SubscriptionProxyRuntimeManager)
      (r : Result Text (Option SubscriptionProxyServerHandle) × E)
      → (http_spawned servers m r).1.fingerprint ≡ m.fingerprint
  http_spawned-fingerprint m (ok handle, e) = refl
  http_spawned-fingerprint m (err error, e) = refl

  main_spawned-fingerprint :
      (m : SubscriptionProxyRuntimeManager) (r : Result Text SubscriptionProxyServerHandle × E)
      → (main_spawned servers m r).1.fingerprint ≡ m.fingerprint
  main_spawned-fingerprint m (ok handle, e) = refl
  main_spawned-fingerprint m (err error, e) = refl

  start_main-fingerprint :
      (c : SubscriptionProxyConfig) (mode : Option SubscriptionProxyServeMode)
      (m : SubscriptionProxyRuntimeManager) (e : E)
      → (start_main servers c mode m e).1.fingerprint ≡ m.fingerprint
  unfolding stop_main_server
  start_main-fingerprint c none m e = refl
  start_main-fingerprint c (some https) m e = main_spawned-fingerprint m _
  start_main-fingerprint c (some http_fallback) m e = main_spawned-fingerprint m _

  after_http-fingerprint :
      (c : SubscriptionProxyConfig) (mode : Option SubscriptionProxyServeMode)
      (r : Result Text (Unit {0}) × SubscriptionProxyRuntimeManager × E)
      → (after_http servers c mode r).1.fingerprint ≡ r.1.fingerprint
  after_http-fingerprint c mode (ok _, m, e) = start_main-fingerprint c mode m e
  after_http-fingerprint c mode (err error, m, e) = refl

  pub sync_action-fingerprint :
      (c : SubscriptionProxyConfig) (p : SubscriptionProxyApplyPlan)
      (action : SubscriptionProxyApplyAction) (m : SubscriptionProxyRuntimeManager) (e : E)
      → (sync_action servers c p action m e).1.fingerprint ≡ m.fingerprint
  unfolding stop_servers stop_main_server
  sync_action-fingerprint c p disabled m e = refl
  sync_action-fingerprint c p unchanged m e = refl
  sync_action-fingerprint c p failed m e =
      http_spawned-fingerprint (stop_main_server servers m e).0
        (spawn_subscription_proxy_http_challenge_server servers c (stop_main_server servers m e).1)
  sync_action-fingerprint c p started m e =
      after_http-fingerprint c p.serve_mode
        (http_spawned servers m (spawn_subscription_proxy_http_challenge_server servers c e))
      ∙ http_spawned-fingerprint m (spawn_subscription_proxy_http_challenge_server servers c e)
