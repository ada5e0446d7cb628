-- ===== src/Machine/Merge.antt =====
-- How src/machine.rs makes one configuration of the subscription proxy out of what the panels of the
-- profiles say of it.
use kelinode_rs.Prelude.{
  Bool, true, false, not, ◌&&◌, ◌||◌, List, [], ◌==◌, if◌then◌else◌, is_empty, any,
}
use kelinode_rs.Prelude.Text.{trim}
use kelinode_rs.SubscriptionProxy.{
  SubscriptionProxyProfile, WebsiteProxyProfile, SubscriptionProxyZeroSslConfig,
  SubscriptionProxyConfig as RuntimeSubscriptionProxyConfig,
}
use kelinode_rs.Machine.{MachineProfileConfig, AgentConfig, SubscriptionProxyConfig}
use kelinode_rs.Machine.Names.{fill_if_empty, valid_subscription_proxy_profile}
use kelinode_rs.Machine.Offered.{
  push_profiles, push_websites, source_profiles, valid_profiles, valid_websites,
}

-- `AgentConfig::default()`
abbrev pub no_zerossl : SubscriptionProxyZeroSslConfig
no_zerossl = record {
  status = [];
  certificate_id = [];
  validation_path = [];
  validation_content = [];
  certificate_pem = [];
  ca_bundle_pem = [];
  expires_at = [];
}

abbrev pub no_proxy : RuntimeSubscriptionProxyConfig
no_proxy = record {
  enabled = false;
  https_listen = [];
  http_listen = [];
  cert_file = [];
  key_file = [];
  certificate_domain = [];
  challenge_dir = [];
  zerossl = no_zerossl;
  site_id = [];
  upstream_base_url = [];
  subscribe_path = [];
  allow_http_fallback = false;
  max_response_bytes = 0;
  profiles = [];
  website_profiles = [];
}

abbrev pub no_agent : AgentConfig
no_agent = record { subscription_proxy = no_proxy }

unfoldable pub merge_subscription_proxy_zerossl :
    SubscriptionProxyZeroSslConfig → SubscriptionProxyZeroSslConfig → SubscriptionProxyZeroSslConfig
unfolding fill_if_empty
merge_subscription_proxy_zerossl target source = record {
  status = fill_if_empty target.status source.status;
  certificate_id = fill_if_empty target.certificate_id source.certificate_id;
  validation_path = fill_if_empty target.validation_path source.validation_path;
  validation_content = fill_if_empty target.validation_content source.validation_content;
  certificate_pem = fill_if_empty target.certificate_pem source.certificate_pem;
  ca_bundle_pem = fill_if_empty target.ca_bundle_pem source.ca_bundle_pem;
  expires_at = fill_if_empty target.expires_at source.expires_at;
}

-- The fields of a target that is not enabled.
abbrev pub taken_over :
    RuntimeSubscriptionProxyConfig → SubscriptionProxyConfig → RuntimeSubscriptionProxyConfig
taken_over target source = record target {
  enabled = true;
  https_listen = trim source.https_listen;
  http_listen = trim source.http_listen;
  cert_file = trim source.cert_file;
  key_file = trim source.key_file;
  certificate_domain = trim source.certificate_domain;
  challenge_dir = trim source.challenge_dir;
  zerossl = source.zerossl;
  allow_http_fallback = source.allow_http_fallback;
  max_response_bytes = source.max_response_bytes;
}

-- The fields of one that is, of which the empty ones are filled.
abbrev pub filled :
    RuntimeSubscriptionProxyConfig → SubscriptionProxyConfig → RuntimeSubscriptionProxyConfig
filled target source = record target {
  https_listen = fill_if_empty target.https_listen source.https_listen;
  http_listen = fill_if_empty target.http_listen source.http_listen;
  cert_file = fill_if_empty target.cert_file source.cert_file;
  key_file = fill_if_empty target.key_file source.key_file;
  certificate_domain = fill_if_empty target.certificate_domain source.certificate_domain;
  challenge_dir = fill_if_empty target.challenge_dir source.challenge_dir;
  zerossl = merge_subscription_proxy_zerossl target.zerossl source.zerossl;
  max_response_bytes =
      if target.max_response_bytes == 0
      then source.max_response_bytes
      else target.max_response_bytes;
}

abbrev pub push_sites :
    RuntimeSubscriptionProxyConfig
    → List SubscriptionProxyProfile
    → List WebsiteProxyProfile
    → RuntimeSubscriptionProxyConfig
push_sites target profiles websites = record target {
  profiles = push_profiles target.profiles profiles;
  website_profiles = push_websites target.website_profiles websites;
}

-- The part after the sites are made.
abbrev pub merge_sites :
    RuntimeSubscriptionProxyConfig
    → SubscriptionProxyConfig
    → List SubscriptionProxyProfile
    → List WebsiteProxyProfile
    → RuntimeSubscriptionProxyConfig
merge_sites target source profiles websites =
    if is_empty profiles && is_empty websites
    then target
    else push_sites (if not target.enabled then taken_over target source else filled target source)
        profiles websites

unfoldable pub merge_subscription_proxy :
    RuntimeSubscriptionProxyConfig
    → MachineProfileConfig
    → SubscriptionProxyConfig
    → RuntimeSubscriptionProxyConfig
merge_subscription_proxy target profile source =
    if not source.enabled && (is_empty source.profiles && is_empty source.website_profiles)
    then target
    else merge_sites target source (valid_profiles profile (source_profiles source))
        (valid_websites profile source.website_profiles)

abbrev pub as_source : RuntimeSubscriptionProxyConfig → SubscriptionProxyConfig
as_source config = record {
  enabled = config.enabled;
  https_listen = config.https_listen;
  http_listen = config.http_listen;
  cert_file = config.cert_file;
  key_file = config.key_file;
  certificate_domain = config.certificate_domain;
  challenge_dir = config.challenge_dir;
  zerossl = config.zerossl;
  site_id = config.site_id;
  upstream_base_url = config.upstream_base_url;
  subscribe_path = config.subscribe_path;
  allow_http_fallback = config.allow_http_fallback;
  max_response_bytes = config.max_response_bytes;
  profiles = config.profiles;
  website_profiles = config.website_profiles;
}

-- The two structures have the same fields, and the fields are filled alike.
unfoldable pub merge_runtime_agent : AgentConfig → AgentConfig → AgentConfig
merge_runtime_agent target source =
    let source_proxy = source.subscription_proxy in
    let proxy = target.subscription_proxy in
    if not source_proxy.enabled
    then target
    else if not proxy.enabled
    then record { subscription_proxy = source_proxy }
    else record {
      subscription_proxy =
          push_sites (filled proxy (as_source source_proxy)) source_proxy.profiles
            source_proxy.website_profiles;
    }

unfoldable pub can_run_subscription_proxy_only : AgentConfig → Bool
can_run_subscription_proxy_only agent =
    let proxy = agent.subscription_proxy in
    proxy.enabled
    && (valid_subscription_proxy_profile proxy.site_id proxy.upstream_base_url
        || (any (λ p. valid_subscription_proxy_profile p.site_id p.upstream_base_url) proxy.profiles
            || any (λ p. valid_subscription_proxy_profile p.site_id p.upstream_base_url)
                proxy.website_profiles))
