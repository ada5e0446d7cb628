-- ===== src/SubscriptionProxy/ServerTests.antt =====
-- The configuration, the routes and the manager of src/subscription_proxy.rs at small inputs, and the
-- theorems at inputs that meet their hypotheses.
use kelinode_rs.Prelude.{ℕ, ◌+◌, true, false, none, some, [], ◌∷◌, if◌then◌else◌, ◌≡◌, refl}
use kelinode_rs.Prelude.Text.{
  text, text_eq, text_eq_iff, trim, trim_start, trim_end, trim_matches, is_whitespace, strip_prefix,
  split, to_lower, to_upper, is_alphanumeric, is_digit, join,
}
use kelinode_rs.Prelude.Str.{
  eq_ignore_ascii_case, split_once, rsplit_once, split_whitespace, split_crlf, contains,
}
use kelinode_rs.Prelude.Order.{text_cmp, text_ord}
use kelinode_rs.Prelude.Decimal.{decimal}
use kelinode_rs.Prelude.Utf8.{Bytes, as_bytes, from_utf8, decode, lead}
use kelinode_rs.Prelude.Result.{Result, ok, err}
use kelinode_rs.BTreeMap.{get, insert, collect, extend}
use kelinode_rs.SubscriptionProxy.{
  SubscriptionProxyConfig, SubscriptionProxyProfile, SubscriptionProxyZeroSslConfig,
  SubscriptionProxyInboundRequest, SubscriptionProxyUpstreamRequest, SubscriptionProxyFileWrite,
  SubscriptionProxyApplyPlan, upstream,
}
use kelinode_rs.SubscriptionProxy.Paths.{
  trim_trailing_slashes, trim_subscription_path, is_valid_upstream_base_url, validation_file_name,
  validation_content_string, join_posix_path,
}
use kelinode_rs.SubscriptionProxy.Percent.{
  percent_encode_path_segment, percent_decode_path_segment, encode_bytes, decode_bytes, hex_value,
}
use kelinode_rs.SubscriptionProxy.Http.{
  http_header_end, parse_subscription_proxy_http_request, parse_head, parse_target, parse_headers,
  request_line_words, path_and_query, header_or_empty,
}
use kelinode_rs.SubscriptionProxy.Headers.{
  is_hop_by_hop_header, is_forwarded, forwarded_headers, forwarded_for_key, append_forwarded_for,
  client_ip, upstream_forwarded_headers,
}
use kelinode_rs.SubscriptionProxy.Headers.Forwarded.{IsPlainName, forwarded_host, forwarded_proto}
use kelinode_rs.SubscriptionProxy.Website.{build_subscription_upstream_url}
use kelinode_rs.SubscriptionProxy.Route.{
  plan_subscription_proxy_request, plan_subscription, profile_of_site, is_read, upper_method,
  plan_subscription_proxy_http_server,
}
use kelinode_rs.SubscriptionProxy.Route.Upstream.{is_dropped, plan-headers}
use kelinode_rs.SubscriptionProxy.Normalize.{
  normalize_subscription_proxy_config, normalize_profiles, normalize_website_profiles,
}
use kelinode_rs.SubscriptionProxy.Normalize.Profiles.{IsNormal, normalize-IsNormal}
use kelinode_rs.SubscriptionProxy.Certificate.{
  Files, plan_subscription_proxy_validation_file, plan_subscription_proxy_certificate_file,
  plan_subscription_proxy_serve_mode, certificate_request, write_validation, write_certificate,
  subscription_proxy_cert_not_after, prepare_subscription_proxy_certificate_status_with_file_writes,
}
use kelinode_rs.SubscriptionProxy.Apply.{
  plan_subscription_proxy_apply, subscription_proxy_fingerprint,
}
use kelinode_rs.SubscriptionProxy.Certificate.Validation.{pki_path}
use kelinode_rs.SubscriptionProxy.Manager.{
  SubscriptionProxyRuntimeManager, Servers, apply_and_start_with_file_system, new, no_server,
  ApplyError, apply, apply_normalized, sync_servers_for_apply_plan,
  spawn_subscription_proxy_http_challenge_server,
}
use kelinode_rs.SubscriptionProxy.Manager.Restart.{IsIdle, failed_start-IsIdle}
use kelinode_rs.SubscriptionProxy.Manager.Reached.{
  IsConsistent, created, then_applied, Reached-IsConsistent,
}

abbrev site : SubscriptionProxyProfile
site = record {
  site_id = text "A";
  upstream_base_url = text "https://p.example/";
  subscribe_path = [];
}

abbrev client_bytes : Bytes
client_bytes = text "GET /sub/a/t%2F1?x HTTP/1.1\r\nHost: n\r\nTE: trailers\r\nAccept: */*\r\n\r\n"

abbrev client_request : SubscriptionProxyInboundRequest
client_request = record {
  method = text "GET";
  path = text "/sub/a/t%2F1";
  raw_query = text "x";
  host = text "n";
  remote_addr = text "192.0.2.1:9";
  headers =
      (text "Accept", text "*/*") ∷ (text "Host", text "n") ∷ (text "TE", text "trailers") ∷ [];
  body = [];
}

abbrev panel_request : SubscriptionProxyUpstreamRequest
panel_request = record {
  method = text "GET";
  url = text "https://p.example/s/t%2F1?x";
  headers =
      (text "Accept", text "*/*")
      ∷ (text "X-Forwarded-For", text "192.0.2.1")
      ∷ (text "X-Forwarded-Host", text "n")
      ∷ (text "X-Forwarded-Proto", text "https")
      ∷ [];
  body = [];
  head_only = false;
  follow_redirects = true;
  response_rewrite = none;
}

parsed : parse_subscription_proxy_http_request client_bytes (text "192.0.2.1:9") ≡ ok client_request
unfolding parse_subscription_proxy_http_request parse_head parse_target parse_headers
    request_line_words path_and_query header_or_empty http_header_end from_utf8 decode lead
    split_crlf split_once split_whitespace trim trim_matches trim_end trim_start is_whitespace
    insert text_cmp eq_ignore_ascii_case text_eq to_lower
parsed = refl

planned :
    plan_subscription_proxy_request (site ∷ []) [] client_request ≡ ok (upstream panel_request)
unfolding plan_subscription_proxy_request plan_subscription profile_of_site
    build_subscription_upstream_url percent_encode_path_segment percent_decode_path_segment
    encode_bytes decode_bytes hex_value as_bytes from_utf8 decode lead upstream_forwarded_headers
    forwarded_headers append_forwarded_for forwarded_for_key client_ip is_forwarded
    is_hop_by_hop_header collect extend insert get text_cmp text_eq trim trim_matches trim_end
    trim_start is_whitespace strip_prefix split split_once rsplit_once eq_ignore_ascii_case to_lower
    to_upper is_alphanumeric is_digit trim_trailing_slashes trim_subscription_path
    is_valid_upstream_base_url
planned = refl

accept-IsPlainName : IsPlainName (text "Accept")
unfolding eq_ignore_ascii_case text_eq to_lower
accept-IsPlainName = record { no_host = λ e. cc; no_proto = λ e. cc; no_for = refl }

-- The name that the proxy writes, in other letters, is a client's own.
lower_proto-IsPlainName :
    IsPlainName (text "x-forwarded-proto") × (is_dropped (text "x-forwarded-proto") ≡ false)
unfolding eq_ignore_ascii_case text_eq to_lower
lower_proto-IsPlainName =
    let name = text "x-forwarded-proto" in
    (
      record {
        no_host = λ e. let q : false ≡ true = (text_eq_iff name forwarded_host).1 e in cc;
        no_proto = λ e. let q : false ≡ true = (text_eq_iff name forwarded_proto).1 e in cc;
        no_for = refl;
      },
      refl,
    )

plan-headers_example :
    (get (text "Accept") panel_request.headers
      ≡ (if is_dropped (text "Accept") then none else get (text "Accept") client_request.headers))
    × (get forwarded_proto panel_request.headers ≡ some (text "https"))
plan-headers_example =
    plan-headers (site ∷ []) [] client_bytes (text "192.0.2.1:9") client_request panel_request
      (text "Accept") parsed planned accept-IsPlainName

abbrev zerossl : SubscriptionProxyZeroSslConfig
zerossl = record {
  status = [];
  certificate_id = [];
  validation_path = text "/.well-known/pki-validation/A1.txt";
  validation_content = text "abc ";
  certificate_pem = [];
  ca_bundle_pem = [];
  expires_at = [];
}

-- The site of the configuration itself is one of its profiles, in other letters.
abbrev pub source : SubscriptionProxyConfig
source = record {
  enabled = false;
  https_listen = [];
  http_listen = text " :80";
  cert_file = text "/c";
  key_file = text "/k";
  certificate_domain = [];
  challenge_dir = text "/w/";
  zerossl = zerossl;
  site_id = text "a";
  upstream_base_url = text "http://other";
  subscribe_path = [];
  allow_http_fallback = true;
  max_response_bytes = 0;
  profiles = site ∷ [];
  website_profiles = [];
}

abbrev normal : SubscriptionProxyConfig
normal = record source {
  enabled = true;
  https_listen = text "0.0.0.0:443";
  http_listen = text ":80";
  max_response_bytes = 10485760;
  profiles =
      record {
        site_id = text "A";
        upstream_base_url = text "https://p.example";
        subscribe_path = text "s";
      }
      ∷ [];
}

normalized : normalize_subscription_proxy_config source ≡ ok normal
unfolding normalize_subscription_proxy_config normalize_profiles normalize_website_profiles
    trim_trailing_slashes trim_subscription_path is_valid_upstream_base_url trim trim_matches
    trim_end trim_start is_whitespace strip_prefix split text_eq to_lower
normalized = refl

normalize-IsNormal_example : IsNormal source normal
normalize-IsNormal_example = normalize-IsNormal source normal normalized

abbrev pub validation : SubscriptionProxyFileWrite
validation = record { path = text "/w/A1.txt"; content = text "abc\n"; mode = 420 }

pub validation_facts :
    (plan_subscription_proxy_validation_file source ≡ ok (some validation))
    × (validation_file_name (trim source.zerossl.validation_path) ≡ some (text "A1.txt"))
    × (contains (text "..") (text "A1.txt") ≡ false)
unfolding plan_subscription_proxy_validation_file validation_file_name validation_content_string
    join_posix_path contains trim trim_matches trim_end trim_start is_whitespace split text_eq
validation_facts = (refl, refl, refl)

abbrev pub ca_request : SubscriptionProxyInboundRequest
ca_request = record {
  method = text "get";
  path = pki_path (text "A1.txt");
  raw_query = [];
  host = [];
  remote_addr = [];
  headers = [];
  body = [];
}

pub ca_reads : is_read (upper_method ca_request) ≡ true
unfolding trim trim_matches trim_end trim_start is_whitespace text_eq to_upper
ca_reads = refl

-- No certificate is there, and every address is taken; the state counts the tries.
abbrev no_files : Files ℕ
no_files = record {
  certificate_not_after = λ path e. ([], e);
  ensure_csr = λ key domain e. (ok [], e);
  file_readable = λ path e. (false, e);
  write_file = λ write e. (ok tt, e);
}

abbrev taken_addresses : Servers ℕ
taken_addresses = record {
  load_tls = λ cert key e. (ok tt, e);
  bind = λ listen service e. (err (text "in use"), e + 1);
  stop = λ handle e. e;
}

abbrev after_failure : SubscriptionProxyRuntimeManager
after_failure = (apply_and_start_with_file_system no_files taken_addresses new source 0).1

abbrev outcome_of :
    Result ApplyError SubscriptionProxyApplyPlan × SubscriptionProxyRuntimeManager × ℕ
    → Result ApplyError SubscriptionProxyApplyPlan × ℕ
outcome_of (r, m, e) = (r, e)

start_fails :
    apply_and_start_with_file_system no_files taken_addresses new source 0
    ≡ (err (no_server (text "in use")), after_failure, 1)
unfolding apply_and_start_with_file_system apply apply_normalized sync_servers_for_apply_plan
    spawn_subscription_proxy_http_challenge_server plan_subscription_proxy_http_server
    plan_subscription_proxy_apply plan_subscription_proxy_serve_mode subscription_proxy_fingerprint
    prepare_subscription_proxy_certificate_status_with_file_writes certificate_request
    write_validation write_certificate plan_subscription_proxy_validation_file
    plan_subscription_proxy_certificate_file validation_file_name validation_content_string
    join_posix_path subscription_proxy_cert_not_after normalize_subscription_proxy_config
    normalize_profiles normalize_website_profiles trim_trailing_slashes trim_subscription_path
    is_valid_upstream_base_url trim trim_matches trim_end trim_start is_whitespace strip_prefix
    split text_eq to_lower join decimal text_cmp
start_fails = refl

failed_start-IsIdle_example :
    (plan : SubscriptionProxyApplyPlan) × IsIdle no_files taken_addresses source 1 after_failure
      plan
failed_start-IsIdle_example =
    failed_start-IsIdle no_files taken_addresses source new after_failure 0 1 1 (text "in use")
      start_fails

Reached-IsConsistent_example : IsConsistent after_failure
Reached-IsConsistent_example =
    Reached-IsConsistent no_files taken_addresses after_failure
      (then_applied (err (no_server (text "in use"))) source 0 1 created start_fails)
