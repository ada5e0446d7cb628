-- ===== src/SubscriptionProxy.antt =====
-- src/subscription_proxy.rs: the types of the reverse proxy that serves subscriptions and websites of
-- the panel, and those of its configuration in src/config.rs. The children have its operations: Http
-- the requests and Response the replies on the wire, Paths and Percent the paths and tokens, Headers
-- the headers, Website and Route what a request is sent to, Normalize the configuration,
-- Certificate the files, Apply and Manager its running.
pub mod Paths
pub mod Percent
pub mod Http
pub mod Response
pub mod Headers
pub mod Website
pub mod Route
pub mod Normalize
pub mod Certificate
pub mod Apply
pub mod Manager
pub mod Serve
mod Tests
mod ServerTests
mod ServeTests
use kelinode_rs.Prelude.{ℕ, ◌*◌, Bool, Option, List}
use kelinode_rs.Prelude.Text.{Text, text}
use kelinode_rs.Prelude.Utf8.{Bytes}
use kelinode_rs.BTreeMap.{BTreeMap}

abbrev pub default_https_listen : Text
default_https_listen = text "0.0.0.0:443"

abbrev pub default_challenge_dir : Text
default_challenge_dir = text "/etc/kelinode/subproxy/challenges"

abbrev pub default_max_response_bytes : ℕ
default_max_response_bytes = 10 * 1024 * 1024

abbrev pub default_max_request_body_bytes : ℕ
default_max_request_body_bytes = 10 * 1024 * 1024

abbrev pub Headers : Type 0
Headers = BTreeMap Text Text

pub record SubscriptionProxyProfile : Type 0 where
  pub site_id : Text
  pub upstream_base_url : Text
  pub subscribe_path : Text

pub record WebsiteProxyProfile : Type 0 where
  pub site_id : Text
  pub upstream_base_url : Text
  pub path_prefix : Text

pub record SubscriptionProxyZeroSslConfig : Type 0 where
  pub status : Text
  pub certificate_id : Text
  pub validation_path : Text
  pub validation_content : Text
  pub certificate_pem : Text
  pub ca_bundle_pem : Text
  pub expires_at : Text

pub record SubscriptionProxyConfig : Type 0 where
  pub enabled : Bool
  pub https_listen : Text
  pub http_listen : Text
  pub cert_file : Text
  pub key_file : Text
  pub certificate_domain : Text
  pub challenge_dir : Text
  pub zerossl : SubscriptionProxyZeroSslConfig
  pub site_id : Text
  pub upstream_base_url : Text
  pub subscribe_path : Text
  pub allow_http_fallback : Bool
  pub max_response_bytes : ℕ
  pub profiles : List SubscriptionProxyProfile
  pub website_profiles : List WebsiteProxyProfile

pub record SubscriptionProxyInboundRequest : Type 0 where
  pub method : Text
  pub path : Text
  pub raw_query : Text
  pub host : Text
  pub remote_addr : Text
  pub headers : Headers
  pub body : Bytes

pub record WebsiteProxyRewriteContext : Type 0 where
  pub upstream_base_url : Text
  pub proxy_path_prefix : Text

pub record SubscriptionProxyUpstreamRequest : Type 0 where
  pub method : Text
  pub url : Text
  pub headers : Headers
  pub body : Bytes
  pub head_only : Bool
  pub follow_redirects : Bool
  pub response_rewrite : Option WebsiteProxyRewriteContext

pub record SubscriptionProxyUpstreamResponse : Type 0 where
  pub status : ℕ
  pub headers : Headers
  pub set_cookie_headers : List Text
  pub body : Bytes
  pub content_length : Option ℕ

pub record SubscriptionProxyClientResponse : Type 0 where
  pub status : ℕ
  pub headers : Headers
  pub set_cookie_headers : List Text
  pub body : Bytes

pub record SubscriptionProxyFileWrite : Type 0 where
  pub path : Text
  pub content : Text
  pub mode : ℕ

pub record SubscriptionProxyStatus : Type 0 where
  pub status : Text
  pub enabled : Bool
  pub running : Bool
  pub mode : Text
  pub https_listen : Text
  pub profiles : ℕ
  pub website_profiles : ℕ
  pub certificate_domain : Text
  pub certificate_owner_site_id : Text
  pub certificate_id : Text
  pub need_certificate : Bool
  pub csr_pem : Text
  pub validation_ready : Bool
  pub cert_not_after : Text
  pub last_error : Text

pub data SubscriptionProxyServeMode : Type 0 where
  https http_fallback : SubscriptionProxyServeMode

pub data SubscriptionProxyApplyAction : Type 0 where
  disabled unchanged started failed : SubscriptionProxyApplyAction

pub record SubscriptionProxyApplyPlan : Type 0 where
  pub action : SubscriptionProxyApplyAction
  pub fingerprint : Text
  pub status : SubscriptionProxyStatus
  pub serve_mode : Option SubscriptionProxyServeMode
  pub profiles : List SubscriptionProxyProfile
  pub website_profiles : List WebsiteProxyProfile

pub record SubscriptionProxyHttpServerPlan : Type 0 where
  pub listen : Text
  pub challenge_dir : Text

pub record SubscriptionProxyMainServerPlan : Type 0 where
  pub listen : Text
  pub mode : SubscriptionProxyServeMode
  pub cert_file : Text
  pub key_file : Text
  pub max_response_bytes : ℕ
  pub profiles : List SubscriptionProxyProfile
  pub website_profiles : List WebsiteProxyProfile

pub record SubscriptionProxyCsrPlan : Type 0 where
  pub key_file : Text
  pub common_name : Text
  pub subject_alt_name : Text
  pub generate_key : Bool

pub data SubscriptionProxyRoute : Type 0 where
  health : SubscriptionProxyRoute
  challenge_file : Text → SubscriptionProxyRoute
  upstream : SubscriptionProxyUpstreamRequest → SubscriptionProxyRoute

pub data SubscriptionProxyRouteError : Type 0 where
  not_found method_not_allowed : SubscriptionProxyRouteError
  bad_gateway : Text → SubscriptionProxyRouteError
