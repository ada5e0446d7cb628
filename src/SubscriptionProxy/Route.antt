-- ===== src/SubscriptionProxy/Route.antt =====
-- The routes of src/subscription_proxy.rs and the handlers of its two servers.
pub mod Upstream
pub mod Followed
use kelinode_rs.Prelude.{
  ℕ, ◌*◌, Bool, true, false, not, ◌&&◌, ◌||◌, Option, none, some, List, [], ◌∷◌, map, ltb, ◌==◌,
  if◌then◌else◌, is_empty, length,
}
use kelinode_rs.Prelude.Text.{Text, text, text_eq, trim, strip_prefix, to_upper}
use kelinode_rs.Prelude.Str.{eq_ignore_ascii_case, split_once}
use kelinode_rs.Prelude.Order.{text_ord}
use kelinode_rs.Prelude.Utf8.{Bytes}
use kelinode_rs.Prelude.Result.{Result, ok, err, ◌>>=◌}
use kelinode_rs.BTreeMap.{insert}
use kelinode_rs.SubscriptionProxy.{
  Headers, SubscriptionProxyProfile, WebsiteProxyProfile, SubscriptionProxyConfig,
  SubscriptionProxyInboundRequest, SubscriptionProxyUpstreamRequest,
  SubscriptionProxyUpstreamResponse, SubscriptionProxyClientResponse, WebsiteProxyRewriteContext,
  SubscriptionProxyRoute, health, challenge_file, upstream, SubscriptionProxyRouteError, not_found,
  method_not_allowed, bad_gateway, default_max_response_bytes, default_challenge_dir,
  default_https_listen, SubscriptionProxyHttpServerPlan, SubscriptionProxyMainServerPlan,
  SubscriptionProxyServeMode,
}
use kelinode_rs.SubscriptionProxy.Paths.{
  first_non_empty, trim_trailing_slashes, challenge_request_file_name, join_posix_path,
}
use kelinode_rs.SubscriptionProxy.Percent.{percent_decode_path_segment}
use kelinode_rs.SubscriptionProxy.Headers.{
  forwarded_headers, upstream_forwarded_headers, rewrite_response_headers,
}
use kelinode_rs.SubscriptionProxy.Website.{
  WebsiteMatch, website_proxy_match, is_allowed_website_proxy_method, build_website_upstream_url,
  build_subscription_upstream_url,
}
use kelinode_rs.SubscriptionProxy.Response.{plain_text}

abbrev pub RouteResult : Type 0 → Type 0
RouteResult A = Result SubscriptionProxyRouteError A

-- `map_err(BadGateway)`
abbrev pub or_bad_gateway : {A : Type 0} → Result Text A → RouteResult A
or_bad_gateway (ok a) = ok a
or_bad_gateway (err e) = err (bad_gateway e)

abbrev pub or_not_found : {A : Type 0} → Option A → RouteResult A
or_not_found none = err not_found
or_not_found (some a) = ok a

abbrev pub upper_method : SubscriptionProxyInboundRequest → Text
upper_method request = map to_upper (trim request.method)

abbrev pub is_read : Text → Bool
is_read method = text_eq method (text "GET") || text_eq method (text "HEAD")

abbrev pub is_head : SubscriptionProxyInboundRequest → Bool
is_head request = eq_ignore_ascii_case (trim request.method) (text "HEAD")

-- `profiles.iter().find(..)`
unfoldable pub profile_of_site :
    Text → List SubscriptionProxyProfile → Option SubscriptionProxyProfile
profile_of_site site_id [] = none
profile_of_site site_id (profile ∷ profiles) =
    let rest = profile_of_site site_id profiles in
    if eq_ignore_ascii_case profile.site_id site_id then some profile else rest

abbrev named_token : Text × Text → Option (Text × Text)
named_token (site_id, token_part) =
    if is_empty (trim site_id) || is_empty (trim token_part)
    then none
    else some (site_id, token_part)

abbrev named_parts : Option (Text × Text) → Option (Text × Text)
named_parts none = none
named_parts (some parts) = named_token parts

abbrev not_blank : Text → Option Text
not_blank token = if is_empty (trim token) then none else some token

-- The branch for `/sub/`, of what follows it in the path.
unfoldable pub plan_subscription :
    List SubscriptionProxyProfile
    → SubscriptionProxyInboundRequest
    → Text
    → RouteResult SubscriptionProxyRoute
plan_subscription profiles request rest = do
  (site_id, token_part) ← or_not_found (named_parts (split_once b'/' rest))
  profile ← or_not_found (profile_of_site site_id profiles)
  decoded ← or_bad_gateway (percent_decode_path_segment token_part)
  token ← or_not_found (not_blank decoded)
  url ← or_bad_gateway (build_subscription_upstream_url profile token request.raw_query)
  ok (
      upstream (record {
        method = upper_method request;
        url = url;
        headers = upstream_forwarded_headers request;
        body = [];
        head_only = is_head request;
        follow_redirects = true;
        response_rewrite = none;
      }))

-- The branch for websites.
unfoldable pub plan_website :
    List WebsiteProxyProfile → SubscriptionProxyInboundRequest → RouteResult SubscriptionProxyRoute
plan_website website_profiles request = do
  m ← or_not_found (website_proxy_match website_profiles request.path)
  url ← or_bad_gateway (build_website_upstream_url m.profile m.upstream_path request.raw_query)
  let head_only = text_eq (upper_method request) (text "HEAD")
  ok (
      upstream (record {
        method = upper_method request;
        url = url;
        headers = upstream_forwarded_headers request;
        body = if head_only then [] else request.body;
        head_only = head_only;
        follow_redirects = false;
        response_rewrite = some (record {
          upstream_base_url = trim_trailing_slashes (trim m.profile.upstream_base_url);
          proxy_path_prefix = m.prefix;
        });
      }))

unfoldable pub plan_subscription_proxy_request :
    List SubscriptionProxyProfile
    → List WebsiteProxyProfile
    → SubscriptionProxyInboundRequest
    → RouteResult SubscriptionProxyRoute
plan_subscription_proxy_request profiles website_profiles request =
    let method = upper_method request in
    if text_eq request.path (text "/health")
    then (if is_read method then ok health else err method_not_allowed)
    else elim (strip_prefix (text "/sub/") request.path) [
      | some rest ↦
          if is_read method then plan_subscription profiles request rest else err method_not_allowed
      | none ↦
          if is_allowed_website_proxy_method method
          then plan_website website_profiles request
          else err method_not_allowed
    ]

-- `strip_prefix(..).and_then(challenge_request_file_name)`
abbrev pub challenge_name : Option Text → Option Text
challenge_name none = none
challenge_name (some rest) = challenge_request_file_name rest

abbrev pub challenge_dir_of : SubscriptionProxyConfig → Text
challenge_dir_of config = first_non_empty (trim config.challenge_dir) default_challenge_dir

unfoldable pub plan_subscription_proxy_http_request :
    SubscriptionProxyConfig → SubscriptionProxyInboundRequest → RouteResult SubscriptionProxyRoute
plan_subscription_proxy_http_request config request =
    if not (is_read (upper_method request))
    then err method_not_allowed
    else if text_eq request.path (text "/health")
    then ok health
    else elim (challenge_name (strip_prefix (text "/.well-known/pki-validation/") request.path)) [
      | none ↦ err not_found
      | some name ↦ ok (challenge_file (join_posix_path (challenge_dir_of config) name))
    ]

unfoldable pub plan_subscription_proxy_http_server :
    SubscriptionProxyConfig → Option SubscriptionProxyHttpServerPlan
plan_subscription_proxy_http_server config =
    let listen = trim config.http_listen in
    if is_empty listen
    then none
    else some (record { listen = listen; challenge_dir = challenge_dir_of config })

abbrev pub or_default_max : ℕ → ℕ
or_default_max n = if n == 0 then default_max_response_bytes else n

unfoldable pub plan_subscription_proxy_main_server :
    SubscriptionProxyConfig → SubscriptionProxyServeMode → SubscriptionProxyMainServerPlan
plan_subscription_proxy_main_server config mode = record {
  listen = first_non_empty (trim config.https_listen) default_https_listen;
  mode = mode;
  cert_file = trim config.cert_file;
  key_file = trim config.key_file;
  max_response_bytes = or_default_max config.max_response_bytes;
  profiles = config.profiles;
  website_profiles = config.website_profiles;
}

-- `map(|length| length > max).unwrap_or(false)`
abbrev exceeds : Option ℕ → ℕ → Bool
exceeds none limit = false
exceeds (some n) limit = ltb limit n

unfoldable pub plan_subscription_proxy_response :
    SubscriptionProxyUpstreamResponse
    → ℕ
    → Bool
    → Option WebsiteProxyRewriteContext
    → RouteResult SubscriptionProxyClientResponse
plan_subscription_proxy_response response max_response_bytes head_only rewrite =
    let limit = or_default_max max_response_bytes in
    let (headers, cookies) =
      rewrite_response_headers (forwarded_headers response.headers) response.set_cookie_headers
        rewrite in
    if exceeds response.content_length limit || ltb limit (length response.body)
    then err (bad_gateway (text "upstream response too large"))
    else ok (record {
      status = response.status;
      headers = headers;
      set_cookie_headers = cookies;
      body = if head_only then [] else response.body;
    })

unfoldable pub plan_subscription_proxy_health_response : Bool → SubscriptionProxyClientResponse
plan_subscription_proxy_health_response head_only = record {
  status = 200;
  headers = insert (text "Content-Type") (text "application/json") [];
  set_cookie_headers = [];
  body = if head_only then [] else text "{\"status\":\"ok\"}";
}

-- `fetch_upstream` is a step of the state `E`.
abbrev pub Fetch : Type 0 → Type 0
Fetch E = SubscriptionProxyUpstreamRequest → E → RouteResult SubscriptionProxyUpstreamResponse × E

abbrev file_response :
    Bool → Result Text (Option Bytes) → RouteResult SubscriptionProxyClientResponse
file_response head_only (err e) = err (bad_gateway e)
file_response head_only (ok none) = err not_found
file_response head_only (ok (some body)) = ok (record {
  status = 200;
  headers = plain_text;
  set_cookie_headers = [];
  body = if head_only then [] else body;
})

module _ {E : Type 0} where
  abbrev pub fetched :
      RouteResult SubscriptionProxyUpstreamResponse × E
      → ℕ
      → SubscriptionProxyUpstreamRequest
      → RouteResult SubscriptionProxyClientResponse × E
  fetched (err e, s) limit request = (err e, s)
  fetched (ok response, s) limit request = (
    plan_subscription_proxy_response response limit request.head_only request.response_rewrite,
    s,
  )

  unfoldable pub handle_subscription_proxy_request :
      List SubscriptionProxyProfile
      → List WebsiteProxyProfile
      → SubscriptionProxyInboundRequest
      → ℕ
      → Fetch E
      → E
      → RouteResult SubscriptionProxyClientResponse × E
  handle_subscription_proxy_request profiles website_profiles request limit fetch s =
      elim (plan_subscription_proxy_request profiles website_profiles request) [
        | err e ↦ (err e, s)
        | ok health ↦ (ok (plan_subscription_proxy_health_response (is_head request)), s)
        | ok (challenge_file _) ↦ (err not_found, s)
        | ok (upstream u) ↦ fetched (fetch u s) limit u
      ]

  abbrev file_read :
      Bool → Result Text (Option Bytes) × E → RouteResult SubscriptionProxyClientResponse × E
  file_read head_only (content, s) = (file_response head_only content, s)

  unfoldable pub handle_subscription_proxy_http_request :
      SubscriptionProxyConfig
      → SubscriptionProxyInboundRequest
      → (Text → E → Result Text (Option Bytes) × E)
      → E
      → RouteResult SubscriptionProxyClientResponse × E
  handle_subscription_proxy_http_request config request read_file s =
      elim (plan_subscription_proxy_http_request config request) [
        | err e ↦ (err e, s)
        | ok health ↦ (ok (plan_subscription_proxy_health_response (is_head request)), s)
        | ok (challenge_file path) ↦ file_read (is_head request) (read_file path s)
        | ok (upstream _) ↦ (err not_found, s)
      ]
