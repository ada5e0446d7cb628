-- ===== src/SubscriptionProxy/Headers.antt =====
-- The headers that src/subscription_proxy.rs passes on, and those that it rewrites.
pub mod Forwarded
use kelinode_rs.Prelude.{
  ℕ, suc, Bool, true, false, not, ◌&&◌, ◌||◌, Option, none, some, List, [], ◌∷◌, ◌++◌, map, ◌==◌,
  if◌then◌else◌, is_empty, all, any, keep, take, drop, length,
}
use kelinode_rs.Prelude.Text.{
  Text, text, text_eq, trim, trim_start, trim_end, split, join, starts_with, strip_prefix, to_lower,
  is_digit,
}
use kelinode_rs.Prelude.Str.{eq_ignore_ascii_case, split_once, rsplit_once}
use kelinode_rs.Prelude.Order.{text_ord}
use kelinode_rs.BTreeMap.{get, insert, remove, collect, keys}
use kelinode_rs.SubscriptionProxy.{
  Headers, SubscriptionProxyInboundRequest, WebsiteProxyRewriteContext,
}
use kelinode_rs.SubscriptionProxy.Paths.{
  is_slash, starts_with_slash, first_non_empty, trim_trailing_slashes, normalize_proxy_path_prefix,
}

unfoldable pub is_hop_by_hop_header : Text → Bool
is_hop_by_hop_header key = any (text_eq (map to_lower key)) (
    text "connection"
    ∷ text "keep-alive"
    ∷ text "proxy-authenticate"
    ∷ text "proxy-authorization"
    ∷ text "te"
    ∷ text "trailer"
    ∷ text "transfer-encoding"
    ∷ text "upgrade"
    ∷ [])

unfoldable pub is_forwarded : Text → Bool
is_forwarded key =
    not (is_hop_by_hop_header key)
    && (not (eq_ignore_ascii_case key (text "host"))
        && not (eq_ignore_ascii_case key (text "content-length")))

abbrev pub is_forwarded_entry : Text × Text → Bool
is_forwarded_entry (key, _) = is_forwarded key

unfoldable pub forwarded_headers : Headers → Headers
forwarded_headers source = collect (keep is_forwarded_entry source)

abbrev pub forwarded_for : Text
forwarded_for = text "X-Forwarded-For"

-- The key that is there, letter case aside, or `X-Forwarded-For`.
unfoldable pub forwarded_for_key : Headers → Text
forwarded_for_key [] = forwarded_for
forwarded_for_key ((key, _) ∷ headers) =
    let rest = forwarded_for_key headers in
    if eq_ignore_ascii_case key forwarded_for then key else rest

-- `map(trim).unwrap_or("")`
abbrev trimmed_or_empty : Option Text → Text
trimmed_or_empty none = []
trimmed_or_empty (some value) = trim value

abbrev pub with_address : Text → Text → Text
with_address existing ip = if is_empty existing then ip else existing ++ (text ", " ++ ip)

unfoldable pub append_forwarded_for : Headers → Text → Headers
append_forwarded_for headers raw =
    let ip = trim raw in
    let key = forwarded_for_key headers in
    if is_empty ip
    then headers
    else insert key (with_address (trimmed_or_empty (get key headers)) ip) headers

-- `matches(':').count()`
abbrev count_char : ℕ → Text → ℕ
count_char c [] = 0
count_char c (d ∷ s) = let n = count_char c s in if d == c then suc n else n

-- The host of an address that is `[host]:port` or `host:port`.
abbrev bracketed : Text → Option Text
bracketed value = elim (strip_prefix (text "[") value) [
  | none ↦ none
  | some rest ↦ elim (split_once b']' rest) [ none ↦ none | some (host, _) ↦ some host ]
]

abbrev host_of_port : Text → Text → Text → Text
host_of_port value host port = if not (is_empty host) && all is_digit port then host else value

abbrev unbracketed : Text → Option Text
unbracketed value =
    if count_char b':' value == 1
    then elim (rsplit_once b':' value) [
      | none ↦ none
      | some (host, port) ↦ some (host_of_port value host port)
    ]
    else some value

unfoldable pub client_ip : Text → Option Text
client_ip remote_addr =
    let value = trim remote_addr in
    if is_empty value
    then none
    else elim (bracketed value) [ some host ↦ some host | none ↦ unbracketed value ]

abbrev pub with_host : Text → Headers → Headers
with_host host headers =
    if is_empty (trim host) then headers else insert (text "X-Forwarded-Host") (trim host) headers

abbrev pub with_client : Option Text → Headers → Headers
with_client none headers = headers
with_client (some ip) headers = append_forwarded_for headers ip

unfoldable pub upstream_forwarded_headers : SubscriptionProxyInboundRequest → Headers
upstream_forwarded_headers request = with_client (client_ip request.remote_addr) (
    insert (text "X-Forwarded-Proto") (text "https")
      (with_host request.host (forwarded_headers request.headers)))

-- `prefixed_proxy_path` of a path that is not empty.
abbrev pub prefixed : Text → Text → Text
prefixed prefix path =
    if starts_with (text "?") path
    then (if text_eq prefix (text "/") then b'/' ∷ path else prefix ++ path)
    else if text_eq prefix (text "/")
    then (if starts_with_slash path then path else b'/' ∷ path)
    else if text_eq path (text "/")
    then prefix
    else trim_end is_slash prefix ++ b'/' ∷ trim_start is_slash path

unfoldable pub prefixed_proxy_path : Text → Text → Text
prefixed_proxy_path prefix path = prefixed prefix (if is_empty (trim path) then text "/" else path)

abbrev pub is_at_end : Text → Bool
is_at_end rest = is_empty rest || (starts_with_slash rest || starts_with (text "?") rest)

abbrev pub rewrite_path : Text → Text → Text
rewrite_path prefix value =
    if starts_with_slash value then prefixed_proxy_path prefix value else value

unfoldable pub rewrite_website_location : Text → WebsiteProxyRewriteContext → Text
rewrite_website_location raw rewrite =
    let prefix = normalize_proxy_path_prefix rewrite.proxy_path_prefix in
    let value = trim raw in
    elim (strip_prefix (trim_trailing_slashes (trim rewrite.upstream_base_url)) value) [
      | none ↦ rewrite_path prefix value
      | some rest ↦
          if is_at_end rest
          then prefixed_proxy_path prefix (first_non_empty rest (text "/"))
          else rewrite_path prefix value
    ]

-- `value.get(..n)` is a text of n bytes; where it equals an ASCII name, letter case aside, its bytes
-- are its characters, and the byte after it is `=` just where the character after it is.
unfoldable pub starts_with_header_attr : Text → Text → Bool
starts_with_header_attr value name =
    eq_ignore_ascii_case (take (length name) value) name
    && starts_with (text "=") (drop (length name) value)

abbrev path_attr : Text → Text
path_attr prefix = text "Path=" ++ prefix

-- The loop over the attributes: the output so far and `has_path`.
unfoldable pub rewrite_attributes : Text → Bool → List Text → List Text
rewrite_attributes prefix has_path [] =
    if not (text_eq prefix (text "/")) && not has_path then path_attr prefix ∷ [] else []
rewrite_attributes prefix has_path (part ∷ parts) =
    let trimmed = trim part in
    let dropped = rewrite_attributes prefix has_path parts in
    let pathed = rewrite_attributes prefix true parts in
    if eq_ignore_ascii_case trimmed (text "domain")
      || starts_with_header_attr trimmed (text "domain")
    then dropped
    else if starts_with_header_attr trimmed (text "path")
    then (if not (text_eq prefix (text "/")) then path_attr prefix else trimmed) ∷ pathed
    else trimmed ∷ dropped

unfoldable pub rewrite_website_set_cookie : Text → WebsiteProxyRewriteContext → Text
rewrite_website_set_cookie value rewrite =
    let prefix = normalize_proxy_path_prefix rewrite.proxy_path_prefix in
    elim (split b';' value) [
      | [] ↦ value
      | first ∷ parts ↦ join (text "; ") (trim first ∷ rewrite_attributes prefix false parts)
    ]

abbrev is_set_cookie : Text → Bool
is_set_cookie key = eq_ignore_ascii_case key (text "set-cookie")

abbrev push_cookie : Option Text → List Text → List Text
push_cookie none cookies = cookies
push_cookie (some value) cookies = cookies ++ value ∷ []

-- The loop over the keys of cookies, which moves their values out of the headers.
unfoldable pub take_cookies : List Text → Headers → List Text → Headers × List Text
take_cookies [] headers cookies = (headers, cookies)
take_cookies (key ∷ cookie_keys) headers cookies =
    take_cookies cookie_keys (remove key headers) (push_cookie (get key headers) cookies)

abbrev relocate : WebsiteProxyRewriteContext → Text × Text → Text × Text
relocate rewrite (key, value) = (
  key,
  if eq_ignore_ascii_case key (text "location")
      then rewrite_website_location value rewrite
      else value,
)

abbrev rewritten : Option WebsiteProxyRewriteContext → Headers × List Text → Headers × List Text
rewritten none taken = taken
rewritten (some rewrite) (headers, cookies) =
    (map (relocate rewrite) headers, map (λ c. rewrite_website_set_cookie c rewrite) cookies)

unfoldable pub rewrite_response_headers :
    Headers → List Text → Option WebsiteProxyRewriteContext → Headers × List Text
rewrite_response_headers headers extra_set_cookie_headers rewrite =
    rewritten rewrite
      (take_cookies (keep is_set_cookie (keys headers)) headers extra_set_cookie_headers)
