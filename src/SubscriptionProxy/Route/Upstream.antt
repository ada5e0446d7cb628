-- ===== src/SubscriptionProxy/Route/Upstream.antt =====
-- What src/subscription_proxy.rs sends upstream for a request that it parsed.
use kelinode_rs.Prelude.{
  Bool, true, not, ◌||◌, Option, none, some, List, [], ◌∷◌, map, if◌then◌else◌, is_empty, any, ◌≡◌,
  ap, ◌∙◌, arith, if_intro, Bool-cases, inl, inr,
}
use mathlib.Core.Path.{subst}
use kelinode_rs.Prelude.Text.{Text, text, text_eq, trim, strip_prefix, to_lower, starts_with}
use kelinode_rs.Prelude.Str.{eq_ignore_ascii_case, split_once}
use kelinode_rs.Prelude.Order.{text_ord}
use kelinode_rs.Prelude.Utf8.{Bytes}
use kelinode_rs.Prelude.Result.{
  Result, ok, err, ◌>>=◌, Ensures, Yields, of_value, of_error, bind-Yields, Yields-Ensures,
}
use kelinode_rs.BTreeMap.{get, insert}
use kelinode_rs.BTreeMap.Laws.{IsSorted, insert-IsSorted}
use kelinode_rs.SubscriptionProxy.{
  Headers, SubscriptionProxyProfile, WebsiteProxyProfile, SubscriptionProxyInboundRequest,
  SubscriptionProxyUpstreamRequest, SubscriptionProxyRoute, health, challenge_file, upstream,
  method_not_allowed,
}
use kelinode_rs.SubscriptionProxy.Http.{
  parse_headers, parse_head, invalid_header, header_or_empty, parse_lines, parse_target,
  parse_subscription_proxy_http_request, path_and_query,
}
use kelinode_rs.SubscriptionProxy.Headers.{
  is_hop_by_hop_header, is_forwarded, upstream_forwarded_headers,
}
use kelinode_rs.SubscriptionProxy.Headers.Forwarded.{
  IsPlainName, forwarded_proto, upstream_unforwarded, upstream_kept, upstream_proto,
  unforwarded-IsPlainName, unforwarded-IsPlainName,
}
use kelinode_rs.SubscriptionProxy.Route.{
  RouteResult, plan_subscription_proxy_request, plan_subscription, plan_website, is_read,
  upper_method,
}
use kelinode_rs.SubscriptionProxy.Website.{is_allowed_website_proxy_method}

parse_headers-IsSorted :
    (hs : Headers) (lines : List Text) → IsSorted hs → Ensures IsSorted (parse_headers hs lines)
unfolding parse_headers
parse_headers-IsSorted hs [] s = s
parse_headers-IsSorted hs (line ∷ lines) s =
    if_intro (Ensures IsSorted) (is_empty (trim line)) (λ _. parse_headers-IsSorted hs lines s)
      (λ _. split_cases (split_once b':' line) (λ key value.
        parse_headers-IsSorted (insert (trim key) (trim value) hs) lines
          (insert-IsSorted (trim key) (trim value) hs s)))
  where
    split_cases :
        (found : Option (Text × Text))
        → ((key value : Text)
            → Ensures IsSorted (parse_headers (insert (trim key) (trim value) hs) lines))
        → Ensures IsSorted (elim found as (λ _. Result Text Headers) [
          | none ↦ err invalid_header
          | some (key, value) ↦
              if is_empty (trim key)
              then err invalid_header
              else parse_headers (insert (trim key) (trim value) hs) lines
        ])
    split_cases none h = tt
    split_cases (some (key, v)) h =
        if_intro (Ensures IsSorted) (is_empty (trim key)) (λ _. tt) (λ _. h key v)

abbrev HasSorted : SubscriptionProxyInboundRequest → Type 0
HasSorted r = IsSorted r.headers

target-HasSorted :
    (method target : Text) (lines : List Text) (body : Bytes) (remote_addr : Text)
    → Yields HasSorted (parse_target method target lines body remote_addr)
unfolding parse_target
target-HasSorted method target lines body remote_addr =
    if_intro (Yields HasSorted)
      (is_empty (path_and_query target).0 || not (starts_with (text "/") (path_and_query target).0))
      (λ _. of_error)
      (λ _.
        headers_cases (path_and_query target) (parse_headers [] lines)
          (parse_headers-IsSorted [] lines tt))
  where
    headers_cases :
        (split : Text × Text) (headers : Result Text Headers)
        → Ensures IsSorted headers
        → Yields HasSorted (
            headers >>= λ hs. ok (record {
              method = method;
              path = split.0;
              raw_query = split.1;
              host = header_or_empty (text "host") hs;
              remote_addr = remote_addr;
              headers = hs;
              body = body;
            }))
    headers_cases split (ok hs) s = of_value s
    headers_cases split (err e) s = of_error

head-HasSorted :
    (line : Text) (lines : List Text) (body : Bytes) (remote_addr : Text)
    → Yields HasSorted (parse_head line lines body remote_addr)
unfolding parse_head
head-HasSorted line lines body remote_addr = search (bind-Yields, target-HasSorted)

lines-HasSorted :
    (lines : List Text) (body : Bytes) (remote_addr : Text)
    → Yields HasSorted (parse_lines lines body remote_addr)
lines-HasSorted [] body remote_addr = of_error
lines-HasSorted (line ∷ lines) body remote_addr = head-HasSorted line lines body remote_addr

parse-HasSorted :
    (raw : Bytes) (remote_addr : Text)
    → Yields HasSorted (parse_subscription_proxy_http_request raw remote_addr)
unfolding parse_subscription_proxy_http_request
parse-HasSorted raw remote_addr = search (bind-Yields, lines-HasSorted)

-- A route to an upstream has the headers of the request as they are passed on.
abbrev HasHeaders : SubscriptionProxyInboundRequest → SubscriptionProxyRoute → Type 0
HasHeaders request health = Unit {0}
HasHeaders request (challenge_file _) = Unit {0}
HasHeaders request (upstream u) = u.headers ≡ upstream_forwarded_headers request

plan_subscription-HasHeaders :
    (ps : List SubscriptionProxyProfile) (request : SubscriptionProxyInboundRequest) (rest : Text)
    → Yields (HasHeaders request) (plan_subscription ps request rest)
unfolding plan_subscription
plan_subscription-HasHeaders ps request rest = search (bind-Yields, of_value) depth 12

plan_website-HasHeaders :
    (ws : List WebsiteProxyProfile) (request : SubscriptionProxyInboundRequest)
    → Yields (HasHeaders request) (plan_website ws request)
unfolding plan_website
plan_website-HasHeaders ws request = search (bind-Yields, of_value)

module _ (ps : List SubscriptionProxyProfile) (ws : List WebsiteProxyProfile)
    (request : SubscriptionProxyInboundRequest) where
  plan-HasHeaders : Yields (HasHeaders request) (plan_subscription_proxy_request ps ws request)
  unfolding plan_subscription_proxy_request
  plan-HasHeaders =
      if_intro (Yields (HasHeaders request)) (text_eq request.path (text "/health"))
        (λ _.
          if_intro (Yields (HasHeaders request)) (is_read (upper_method request)) (λ _. of_value tt)
            (λ _. of_error))
        (λ _. sub_cases (strip_prefix (text "/sub/") request.path))
    where
      sub_cases :
          (stripped : Option Text)
          → Yields
              (HasHeaders request)
              (elim stripped as (λ _. RouteResult SubscriptionProxyRoute) [
                | some rest ↦
                    if is_read (upper_method request)
                    then plan_subscription ps request rest
                    else err method_not_allowed
                | none ↦
                    if is_allowed_website_proxy_method (upper_method request)
                    then plan_website ws request
                    else err method_not_allowed
              ])
      sub_cases (some rest) =
          if_intro (Yields (HasHeaders request)) (is_read (upper_method request))
            (λ _. plan_subscription-HasHeaders ps request rest) (λ _. of_error)
      sub_cases none =
          if_intro (Yields (HasHeaders request))
            (is_allowed_website_proxy_method (upper_method request))
            (λ _. plan_website-HasHeaders ws request) (λ _. of_error)

-- The names, in lower case, of the headers that belong to one connection or to the proxy's own host.
abbrev dropped_names : List Text
dropped_names =
    text "host"
    ∷ text "content-length"
    ∷ text "connection"
    ∷ text "keep-alive"
    ∷ text "proxy-authenticate"
    ∷ text "proxy-authorization"
    ∷ text "te"
    ∷ text "trailer"
    ∷ text "transfer-encoding"
    ∷ text "upgrade"
    ∷ []

abbrev pub is_dropped : Text → Bool
is_dropped k = any (text_eq (map to_lower k)) dropped_names

is_forwarded_lem : (k : Text) → is_forwarded k ≡ not (is_dropped k)
unfolding is_forwarded is_hop_by_hop_header eq_ignore_ascii_case to_lower
is_forwarded_lem k = ground arith

-- Whatever bytes a client sends: if they are parsed and routed to an upstream, then the upstream is
-- sent `https` as `X-Forwarded-Proto`, no header of a dropped name in any letter case, and each other
-- header of the client unchanged, but for those that the proxy writes.
pub plan-headers :
    (ps : List SubscriptionProxyProfile) (ws : List WebsiteProxyProfile) (raw : Bytes)
    (remote_addr : Text) (request : SubscriptionProxyInboundRequest)
    (u : SubscriptionProxyUpstreamRequest) (k : Text)
    → parse_subscription_proxy_http_request raw remote_addr ≡ ok request
    → plan_subscription_proxy_request ps ws request ≡ ok (upstream u)
    → IsPlainName k
    → (get k u.headers ≡ (if is_dropped k then none else get k request.headers))
      × (get forwarded_proto u.headers ≡ some (text "https"))
plan-headers ps ws raw remote_addr request u k parsed planned plain =
    let sorted : IsSorted request.headers =
      subst (λ r. Ensures HasSorted r) parsed (Yields-Ensures (parse-HasSorted raw remote_addr)) in
    let e : u.headers ≡ upstream_forwarded_headers request =
      subst (λ r. Ensures (HasHeaders request) r) planned
        (Yields-Ensures (plan-HasHeaders ps ws request)) in
    (
      ap (get k) e ∙ elim (Bool-cases (is_dropped k)) [
        | inl dropped ↦
            rw dropped (upstream_unforwarded request sorted k (is_forwarded_lem k ∙ ap not dropped))
        | inr other ↦
            rw other (upstream_kept request sorted k (is_forwarded_lem k ∙ ap not other) plain)
      ],
      ap (get forwarded_proto) e ∙ upstream_proto request,
    )

-- A dropped name is none that the proxy writes.
pub dropped-IsPlainName : (k : Text) → is_dropped k ≡ true → IsPlainName k
dropped-IsPlainName k h = unforwarded-IsPlainName k (is_forwarded_lem k ∙ ap not h)
