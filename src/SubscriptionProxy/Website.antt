-- ===== src/SubscriptionProxy/Website.antt =====
-- How src/subscription_proxy.rs picks the website of a path, and the URL that it asks for.
pub mod Longest
pub mod Redirect
use kelinode_rs.Prelude.{
  ℕ, Bool, true, false, not, ◌&&◌, ◌||◌, Option, none, some, List, [], ◌∷◌, ◌++◌, leb, ◌==◌,
  if◌then◌else◌, is_empty, any,
}
use kelinode_rs.Prelude.Text.{Text, text, text_eq, trim, trim_start, strip_prefix, starts_with, len}
use kelinode_rs.Prelude.Result.{Result, ok, err}
use kelinode_rs.SubscriptionProxy.{WebsiteProxyProfile, SubscriptionProxyProfile}
use kelinode_rs.SubscriptionProxy.Paths.{
  is_slash, starts_with_slash, first_non_empty, trim_trailing_slashes, trim_subscription_path,
  normalize_proxy_path_prefix, is_valid_upstream_base_url,
}
use kelinode_rs.SubscriptionProxy.Percent.{percent_encode_path_segment}

unfoldable pub is_allowed_website_proxy_method : Text → Bool
is_allowed_website_proxy_method method = any (text_eq method) (
    text "GET"
    ∷ text "HEAD"
    ∷ text "POST"
    ∷ text "PUT"
    ∷ text "PATCH"
    ∷ text "DELETE"
    ∷ text "OPTIONS"
    ∷ [])

abbrev pub continues : Option Text → Bool
continues none = false
continues (some rest) = starts_with_slash rest

unfoldable pub website_proxy_path_matches : Text → Text → Bool
website_proxy_path_matches prefix request_path =
    if text_eq prefix (text "/")
    then true
    else text_eq request_path prefix || continues (strip_prefix prefix request_path)

abbrev pub or_root : Text → Text
or_root path = if is_empty path then text "/" else path

abbrev pub as_rooted : Text → Text
as_rooted stripped =
    if is_empty stripped
    then text "/"
    else if starts_with_slash stripped
    then stripped
    else b'/' ∷ stripped

abbrev pub stripped_or : Option Text → Text → Text
stripped_or none path = path
stripped_or (some rest) path = rest

unfoldable pub website_proxy_upstream_path : Text → Text → Text
website_proxy_upstream_path prefix request_path =
    if text_eq prefix (text "/")
    then or_root request_path
    else as_rooted (stripped_or (strip_prefix prefix request_path) request_path)

pub record WebsiteMatch : Type 0 where
  pub profile : WebsiteProxyProfile
  pub prefix : Text
  pub upstream_path : Text

abbrev pub match_of : Text → WebsiteProxyProfile → WebsiteMatch
match_of request_path profile =
    let prefix = normalize_proxy_path_prefix profile.path_prefix in
    record {
      profile = profile;
      prefix = prefix;
      upstream_path = website_proxy_upstream_path prefix request_path;
    }

abbrev pub is_match : Text → WebsiteProxyProfile → Bool
is_match request_path profile =
    website_proxy_path_matches (normalize_proxy_path_prefix profile.path_prefix) request_path

-- The profiles that match, in their order.
unfoldable pub website_matches : List WebsiteProxyProfile → Text → List WebsiteMatch
website_matches [] request_path = []
website_matches (profile ∷ profiles) request_path =
    let rest = website_matches profiles request_path in
    if is_match request_path profile then match_of request_path profile ∷ rest else rest

-- `max_by_key(|(_, prefix, _)| prefix.len())`: the last of the greatest.
unfoldable pub longest : Option WebsiteMatch → List WebsiteMatch → Option WebsiteMatch
longest best [] = best
longest none (m ∷ ms) = longest (some m) ms
longest (some best) (m ∷ ms) =
    longest (some (if leb (len best.prefix) (len m.prefix) then m else best)) ms

unfoldable pub website_proxy_match : List WebsiteProxyProfile → Text → Option WebsiteMatch
website_proxy_match profiles request_path =
    longest none (website_matches profiles (or_root request_path))

abbrev pub add_query : Text → Text → Text
add_query url raw_query =
    let query = trim_start (λ c. c == b'?') raw_query in
    if is_empty query then url else url ++ b'?' ∷ query

abbrev pub website_url : Text → Text → Text
website_url base path =
    if text_eq path (text "/") then base ++ text "/" else base ++ b'/' ∷ trim_start is_slash path

unfoldable pub build_website_upstream_url : WebsiteProxyProfile → Text → Text → Result Text Text
build_website_upstream_url profile upstream_path raw_query =
    let base = trim_trailing_slashes (trim profile.upstream_base_url) in
    let path = if is_empty (trim upstream_path) then text "/" else upstream_path in
    if not (is_valid_upstream_base_url base)
    then err (text "invalid base url")
    else ok (add_query (website_url base path) raw_query)

unfoldable pub build_subscription_upstream_url :
    SubscriptionProxyProfile → Text → Text → Result Text Text
build_subscription_upstream_url profile raw_token raw_query =
    let base = trim_trailing_slashes (trim profile.upstream_base_url) in
    let subscribe_path =
      first_non_empty (trim_subscription_path profile.subscribe_path) (text "s") in
    let token = trim raw_token in
    if not (is_valid_upstream_base_url base)
    then err (text "invalid base url")
    else if is_empty token
    then err (text "empty subscription token")
    else ok (
        add_query (base ++ b'/' ∷ (subscribe_path ++ b'/' ∷ percent_encode_path_segment token))
          raw_query)
