-- ===== src/SubscriptionProxy/Normalize.antt =====
-- The configuration of the proxy as src/subscription_proxy.rs normalises it, and the domain of its
-- certificate.
pub mod Profiles
use kelinode_rs.Prelude.{
  ℕ, ◌*◌, ◌+◌, Bool, true, false, not, ◌&&◌, ◌||◌, Option, none, some, List, [], ◌∷◌, ◌++◌, map,
  leb, ◌==◌, if◌then◌else◌, is_empty, any, length,
}
use kelinode_rs.Prelude.Text.{Text, text, text_eq, trim, to_lower, split, is_digit}
use kelinode_rs.Prelude.Decimal.{decimal, parse_u32}
use kelinode_rs.Prelude.Result.{Result, ok, err, ◌>>=◌}
use kelinode_rs.SubscriptionProxy.{
  SubscriptionProxyConfig, SubscriptionProxyProfile, WebsiteProxyProfile, default_https_listen,
  default_challenge_dir, default_max_response_bytes,
}
use kelinode_rs.SubscriptionProxy.Paths.{
  first_non_empty, trim_trailing_slashes, trim_subscription_path, normalize_proxy_path_prefix,
  is_valid_upstream_base_url,
}

-- `seen.insert(key)` adds a key and says whether it was new.
abbrev pub is_seen : Text → List Text → Bool
is_seen key seen = any (text_eq key) seen

-- The error is the site whose upstream is invalid, or that nothing is left to serve.
pub data ConfigError : Type 0 where
  invalid_subscription_upstream invalid_website_upstream : Text → ConfigError
  no_profiles : ConfigError

abbrev pub cons_ok : {E A : Type 0} → A → Result E (List A) → Result E (List A)
cons_ok a (err e) = err e
cons_ok a (ok rest) = ok (a ∷ rest)

abbrev pub normal_profile : SubscriptionProxyProfile → SubscriptionProxyProfile
normal_profile profile = record {
  site_id = trim profile.site_id;
  upstream_base_url = trim_trailing_slashes (trim profile.upstream_base_url);
  subscribe_path = first_non_empty (trim_subscription_path profile.subscribe_path) (text "s");
}

-- The loop over the profiles with the keys seen so far.
unfoldable pub normalize_profiles :
    List Text → List SubscriptionProxyProfile → Result ConfigError (List SubscriptionProxyProfile)
normalize_profiles seen [] = ok []
normalize_profiles seen (profile ∷ profiles) =
    let p = normal_profile profile in
    let key = map to_lower p.site_id in
    let skip = normalize_profiles seen profiles in
    let on = normalize_profiles (key ∷ seen) profiles in
    if is_empty p.site_id || is_empty p.upstream_base_url
    then skip
    else if not (is_valid_upstream_base_url p.upstream_base_url)
    then err (invalid_subscription_upstream p.site_id)
    else if is_seen key seen
    then skip
    else cons_ok p on

abbrev pub normal_website : WebsiteProxyProfile → WebsiteProxyProfile
normal_website profile = record {
  site_id = trim profile.site_id;
  upstream_base_url = trim_trailing_slashes (trim profile.upstream_base_url);
  path_prefix = normalize_proxy_path_prefix profile.path_prefix;
}

abbrev pub website_key : WebsiteProxyProfile → Text
website_key p = map to_lower p.site_id ++ 0 ∷ p.path_prefix

unfoldable pub normalize_website_profiles :
    List Text → List WebsiteProxyProfile → Result ConfigError (List WebsiteProxyProfile)
normalize_website_profiles seen [] = ok []
normalize_website_profiles seen (profile ∷ profiles) =
    let p = normal_website profile in
    let skip = normalize_website_profiles seen profiles in
    let on = normalize_website_profiles (website_key p ∷ seen) profiles in
    if is_empty p.site_id || is_empty p.upstream_base_url
    then skip
    else if not (is_valid_upstream_base_url p.upstream_base_url)
    then err (invalid_website_upstream p.site_id)
    else if is_seen (website_key p) seen
    then skip
    else cons_ok p on

-- The fields that are normalised one by one.
abbrev pub normal_fields : SubscriptionProxyConfig → SubscriptionProxyConfig
normal_fields config = record config {
  https_listen = first_non_empty (trim config.https_listen) default_https_listen;
  http_listen = trim config.http_listen;
  cert_file = trim config.cert_file;
  key_file = trim config.key_file;
  certificate_domain = trim config.certificate_domain;
  challenge_dir = first_non_empty (trim config.challenge_dir) default_challenge_dir;
  site_id = trim config.site_id;
  upstream_base_url = trim_trailing_slashes (trim config.upstream_base_url);
  subscribe_path = trim_subscription_path config.subscribe_path;
  max_response_bytes =
      if config.max_response_bytes == 0
      then default_max_response_bytes
      else config.max_response_bytes;
}

-- The profiles, with the site of the configuration itself as the last.
abbrev pub all_profiles : SubscriptionProxyConfig → List SubscriptionProxyProfile
all_profiles config =
    if not (is_empty config.site_id) || not (is_empty config.upstream_base_url)
    then config.profiles
      ++ record {
        site_id = config.site_id;
        upstream_base_url = config.upstream_base_url;
        subscribe_path = config.subscribe_path;
      }
        ∷ []
    else config.profiles

abbrev pub checked : SubscriptionProxyConfig → Result ConfigError SubscriptionProxyConfig
checked config =
    if config.enabled && (is_empty config.profiles && is_empty config.website_profiles)
    then err no_profiles
    else ok config

abbrev pub with_profiles :
    SubscriptionProxyConfig
    → List SubscriptionProxyProfile
    → List WebsiteProxyProfile
    → SubscriptionProxyConfig
with_profiles config profiles website_profiles = record config {
  profiles = profiles;
  website_profiles = website_profiles;
  enabled = config.enabled || (not (is_empty profiles) || not (is_empty website_profiles));
}

unfoldable pub normalize_subscription_proxy_config :
    SubscriptionProxyConfig → Result ConfigError SubscriptionProxyConfig
normalize_subscription_proxy_config source = do
  profiles ← normalize_profiles [] (all_profiles (normal_fields source))
  website_profiles ← normalize_website_profiles [] source.website_profiles
  checked (with_profiles (normal_fields source) profiles website_profiles)

-- `parse::<Ipv4Addr>`: four parts of one to three digits, none above 255 and none with a leading 0.
abbrev octet_value : Text → Option ℕ → Option ℕ
octet_value part none = none
octet_value part (some n) = if leb n 255 && text_eq (decimal n) part then some n else none

abbrev octet : Text → Option ℕ
octet part = octet_value part (parse_u32 part)

pub record Ipv4Addr : Type 0 where
  pub a : ℕ
  pub b : ℕ
  pub c : ℕ
  pub d : ℕ

abbrev ipv4_of : Option ℕ → Option ℕ → Option ℕ → Option ℕ → Option Ipv4Addr
ipv4_of (some a) (some b) (some c) (some d) = some (record { a = a; b = b; c = c; d = d })
ipv4_of none b c d = none
ipv4_of (some _) none c d = none
ipv4_of (some _) (some _) none d = none
ipv4_of (some _) (some _) (some _) none = none

abbrev ipv4_parts : List Text → Option Ipv4Addr
ipv4_parts (a ∷ b ∷ c ∷ d ∷ []) = ipv4_of (octet a) (octet b) (octet c) (octet d)
ipv4_parts _ = none

unfoldable pub parse_ipv4 : Text → Option Ipv4Addr
parse_ipv4 s = ipv4_parts (split b'.' s)

unfoldable pub show_ipv4 : Ipv4Addr → Text
show_ipv4 ip = decimal ip.a ++ b'.' ∷ (decimal ip.b ++ b'.' ∷ (decimal ip.c ++ b'.' ∷ decimal ip.d))

-- The tests of `Ipv4Addr` that are negated here, in the code's order.
unfoldable pub is_public_ipv4 : Ipv4Addr → Bool
is_public_ipv4 ip = not (
    (ip.a == 10 || (ip.a == 172 && (leb 16 ip.b && leb ip.b 31) || ip.a == 192 && ip.b == 168))
    || (ip.a == 127
        || (ip.a == 169 && ip.b == 254
            || (leb 224 ip.a && leb ip.a 239
                || (ip.a == 255 && (ip.b == 255 && (ip.c == 255 && ip.d == 255))
                    || ip.a == 0 && (ip.b == 0 && (ip.c == 0 && ip.d == 0)))))))

-- `parse::<Ipv6Addr>` is the standard library's and a parameter: only whether a text is one matters.
module _ {E : Type 0} (is_ipv6 : Text → Bool) (detect : E → Result Text Text × E) where
  abbrev valid_public : Result Text Text → Option Text
  valid_public (err e) = none
  valid_public (ok ipv4) = elim (parse_ipv4 (trim ipv4)) [
    | none ↦ none
    | some ip ↦ if is_public_ipv4 ip then some (show_ipv4 ip) else none
  ]

  unfoldable pub detect_valid_public_ipv4 : E → Option Text × E
  detect_valid_public_ipv4 e = let (found, e') = detect e in (valid_public found, e')

  abbrev replaced : Text → Option Text × E → (Text × Bool) × E
  replaced original (none, e) = ((original, false), e)
  replaced original (some ipv4, e) = ((ipv4, not (text_eq ipv4 original)), e)

  -- An IPv6 address or nothing is replaced by the public IPv4 address, if there is one.
  unfoldable pub resolve_subscription_certificate_domain : Text → E → (Text × Bool) × E
  resolve_subscription_certificate_domain raw e =
      let domain = trim raw in
      if not (is_empty domain) && not (is_ipv6 domain)
      then ((domain, false), e)
      else replaced domain (detect_valid_public_ipv4 e)

  unfoldable pub normalize_subscription_proxy_config_with_public_ipv4 :
      SubscriptionProxyConfig → E → Result ConfigError SubscriptionProxyConfig × E
  normalize_subscription_proxy_config_with_public_ipv4 source e =
      elim (normalize_subscription_proxy_config source)
        as (λ _. Result ConfigError SubscriptionProxyConfig × E) [
          | err error ↦ (err error, e)
          | ok config ↦
              let ((domain, _), e') =
                resolve_subscription_certificate_domain config.certificate_domain e in
              if config.enabled
              then (ok (record config { certificate_domain = domain }), e')
              else (ok config, e)
        ]
