-- ===== src/SubscriptionProxy/Apply.antt =====
-- `plan_subscription_proxy_apply` of src/subscription_proxy.rs: whether a configuration starts the
-- proxy, stops it or leaves it, told by its fingerprint.
use kelinode_rs.Prelude.{
  Bool, true, not, ◌&&◌, ◌||◌, none, some, List, [], ◌∷◌, ◌++◌, Ordering, if◌then◌else◌, is_empty,
  length,
}
use kelinode_rs.Prelude.Text.{Text, text, text_eq, trim, trim_end, trim_matches, join}
use kelinode_rs.Prelude.Order.{text_cmp}
use kelinode_rs.Prelude.Decimal.{decimal}
use kelinode_rs.Prelude.Result.{Result, ok, err}
use kelinode_rs.SubscriptionProxy.{
  SubscriptionProxyConfig, SubscriptionProxyProfile, WebsiteProxyProfile, SubscriptionProxyStatus,
  SubscriptionProxyApplyPlan, disabled, unchanged, started, failed, SubscriptionProxyServeMode,
  https, http_fallback,
}
use kelinode_rs.SubscriptionProxy.Paths.{is_slash, normalize_proxy_path_prefix}
use kelinode_rs.SubscriptionProxy.Certificate.{
  Files, default_status, plan_subscription_proxy_serve_mode,
  subscription_proxy_certificate_owner_site_id,
}

-- `sort_by`, which keeps the order of equal items.
module _ {A : Type 0} (cmp : A → A → Ordering) where
  abbrev place : A → List A → List A
  place x [] = x ∷ []
  place x (y ∷ ys) =
      let rest = place x ys in elim (cmp x y) [ Ordering.gt ↦ y ∷ rest | _ ↦ x ∷ y ∷ ys ]

  abbrev pub sort_by : List A → List A
  sort_by [] = []
  sort_by (x ∷ xs) = place x (sort_by xs)

abbrev profile_order : SubscriptionProxyProfile → SubscriptionProxyProfile → Ordering
profile_order left right = text_cmp left.site_id right.site_id

abbrev then_with : Ordering → Ordering → Ordering
then_with Ordering.eq next = next
then_with Ordering.lt next = Ordering.lt
then_with Ordering.gt next = Ordering.gt

abbrev website_order : WebsiteProxyProfile → WebsiteProxyProfile → Ordering
website_order left right =
    then_with (text_cmp left.path_prefix right.path_prefix) (text_cmp left.site_id right.site_id)

abbrev profile_parts : List SubscriptionProxyProfile → List Text
profile_parts [] = []
profile_parts (p ∷ ps) =
    trim p.site_id
    ∷ trim_end is_slash p.upstream_base_url
    ∷ trim_matches is_slash p.subscribe_path
    ∷ profile_parts ps

abbrev website_parts : List WebsiteProxyProfile → List Text
website_parts [] = []
website_parts (p ∷ ps) =
    trim p.site_id
    ∷ trim_end is_slash p.upstream_base_url
    ∷ normalize_proxy_path_prefix p.path_prefix
    ∷ website_parts ps

abbrev bool_text : Bool → Text
bool_text b = if b then text "true" else text "false"

unfoldable pub subscription_proxy_fingerprint : SubscriptionProxyConfig → Text
subscription_proxy_fingerprint config = join (0 ∷ []) (
    (trim config.https_listen
      ∷ trim config.http_listen
      ∷ trim config.cert_file
      ∷ trim config.key_file
      ∷ trim config.certificate_domain
      ∷ trim config.challenge_dir
      ∷ trim config.zerossl.certificate_id
      ∷ trim config.zerossl.validation_path
      ∷ trim config.zerossl.validation_content
      ∷ trim config.zerossl.certificate_pem
      ∷ trim config.zerossl.ca_bundle_pem
      ∷ bool_text config.allow_http_fallback
      ∷ decimal config.max_response_bytes
      ∷ [])
    ++ (profile_parts (sort_by profile_order config.profiles)
        ++ website_parts (sort_by website_order config.website_profiles)))

-- The text of the source, if it has one, in place of that of the target.
abbrev pub replacing : Text → Text → Text
replacing source target = if not (is_empty source) then source else target

unfoldable pub merge_subscription_proxy_status :
    SubscriptionProxyStatus → SubscriptionProxyStatus → SubscriptionProxyStatus
merge_subscription_proxy_status target source = record target {
  certificate_domain = replacing source.certificate_domain target.certificate_domain;
  certificate_owner_site_id =
      replacing source.certificate_owner_site_id target.certificate_owner_site_id;
  certificate_id = replacing source.certificate_id target.certificate_id;
  need_certificate = source.need_certificate;
  csr_pem = source.csr_pem;
  validation_ready = source.validation_ready;
  cert_not_after = replacing source.cert_not_after target.cert_not_after;
  last_error = replacing source.last_error target.last_error;
}

abbrev pub nothing_to_serve : SubscriptionProxyConfig → Bool
nothing_to_serve config =
    not config.enabled || (is_empty config.profiles && is_empty config.website_profiles)

abbrev pub disabled_plan : SubscriptionProxyApplyPlan
disabled_plan = record {
  action = disabled;
  fingerprint = [];
  status = record default_status { status = text "disabled"; mode = text "disabled" };
  serve_mode = none;
  profiles = [];
  website_profiles = [];
}

abbrev pub mode_name : SubscriptionProxyServeMode → Text
mode_name https = text "https"
mode_name http_fallback = text "http"

abbrev pub base_status : SubscriptionProxyConfig → SubscriptionProxyStatus
base_status config = record default_status {
  enabled = true;
  https_listen = trim config.https_listen;
  profiles = length config.profiles;
  website_profiles = length config.website_profiles;
  certificate_owner_site_id = subscription_proxy_certificate_owner_site_id config.profiles;
}

abbrev pub mode_plan :
    SubscriptionProxyConfig
    → SubscriptionProxyStatus
    → Result Text SubscriptionProxyServeMode
    → SubscriptionProxyApplyPlan
mode_plan config certificate_status (ok serve_mode) = record {
  action = started;
  fingerprint = subscription_proxy_fingerprint config;
  status =
      merge_subscription_proxy_status
        (record (base_status config) {
          status = text "running";
          running = true;
          mode = mode_name serve_mode;
        })
        certificate_status;
  serve_mode = some serve_mode;
  profiles = config.profiles;
  website_profiles = config.website_profiles;
}
mode_plan config certificate_status (err error) = record {
  action = failed;
  fingerprint = subscription_proxy_fingerprint config;
  status =
      merge_subscription_proxy_status
        (record (base_status config) {
          status = text "error";
          mode = text "error";
          last_error = error;
        })
        certificate_status;
  serve_mode = none;
  profiles = config.profiles;
  website_profiles = config.website_profiles;
}

abbrev pub unchanged_plan :
    SubscriptionProxyConfig → SubscriptionProxyStatus → SubscriptionProxyApplyPlan
unchanged_plan config certificate_status = record {
  action = unchanged;
  fingerprint = subscription_proxy_fingerprint config;
  status = certificate_status;
  serve_mode = none;
  profiles = config.profiles;
  website_profiles = config.website_profiles;
}

module _ {E : Type 0} (files : Files E) where
  abbrev served :
      SubscriptionProxyConfig
      → SubscriptionProxyStatus
      → Result Text SubscriptionProxyServeMode × E
      → SubscriptionProxyApplyPlan × E
  served config certificate_status (mode, e) = (mode_plan config certificate_status mode, e)

  abbrev pub is_current : Text → SubscriptionProxyConfig → Bool
  is_current current config =
      not (is_empty current) && text_eq current (subscription_proxy_fingerprint config)

  unfoldable pub plan_subscription_proxy_apply :
      SubscriptionProxyConfig → Text → SubscriptionProxyStatus → E → SubscriptionProxyApplyPlan × E
  plan_subscription_proxy_apply config current_fingerprint certificate_status e =
      if nothing_to_serve config
      then (disabled_plan, e)
      else if is_current current_fingerprint config
      then (unchanged_plan config certificate_status, e)
      else served config certificate_status (plan_subscription_proxy_serve_mode files config e)
