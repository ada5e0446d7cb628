-- ===== src/SubscriptionProxy/Tests.antt =====
-- The proxy of src/subscription_proxy.rs at small inputs, and the theorems at inputs that meet their
-- hypotheses.
use kelinode_rs.Prelude.{
  ◌+◌, some, [], ◌∷◌, take, drop, length, All, ◌≡◌, refl, sym, inl, inr, arith,
}
use kelinode_rs.Prelude.Text.{
  Text, text, text_eq, trim, trim_start, trim_end, trim_matches, is_whitespace, strip_prefix, split,
  to_lower, to_upper, is_alphanumeric, is_digit, len,
}
use kelinode_rs.Prelude.Str.{eq_ignore_ascii_case, split_once, split_crlf}
use kelinode_rs.Prelude.Order.{text_ord}
use kelinode_rs.Prelude.Decimal.{decimal, parse_usize}
use kelinode_rs.Prelude.Utf8.{Bytes, as_bytes, from_utf8, decode, lead}
use kelinode_rs.Prelude.Result.{ok, err}
use kelinode_rs.SubscriptionProxy.{
  WebsiteProxyProfile, SubscriptionProxyClientResponse, SubscriptionProxyInboundRequest,
  SubscriptionProxyUpstreamRequest, upstream,
}
use kelinode_rs.SubscriptionProxy.Paths.{
  normalize_proxy_path_prefix, trim_trailing_slashes, is_valid_upstream_base_url,
}
use kelinode_rs.SubscriptionProxy.Percent.{
  percent_encode_path_segment, percent_decode_path_segment, encode_bytes,
}
use kelinode_rs.SubscriptionProxy.Percent.RoundTrip.{percent_decode-percent_encode}
use kelinode_rs.SubscriptionProxy.Http.{
  http_header_end, request_content_length, content_length_of, path_and_query,
}
use kelinode_rs.SubscriptionProxy.Http.Reader.{
  Reads, read_subscription_proxy_http_request, read_subscription_proxy_http_request_head,
  read_exact, read_body, read_after_head,
}
use kelinode_rs.SubscriptionProxy.Http.Reader.Loops.{stream}
use kelinode_rs.SubscriptionProxy.Http.Reader.Framed.{IsFramed, body_length, read_request-IsFramed}
use kelinode_rs.SubscriptionProxy.Http.Reader.Complete.{HasRequest, read_request_complete}
use kelinode_rs.SubscriptionProxy.Response.{
  render_subscription_proxy_http_response, render_headers, render_cookies, valid_http_header_name,
  valid_http_header_value, http_reason_phrase,
}
use kelinode_rs.SubscriptionProxy.Response.Framing.{IsHeadLine}
use kelinode_rs.SubscriptionProxy.Response.Lines.{first_line, other_lines}
use kelinode_rs.SubscriptionProxy.Response.Written.{written_head, http_header_end-render}
use kelinode_rs.SubscriptionProxy.Headers.{rewrite_website_location, prefixed_proxy_path}
use kelinode_rs.SubscriptionProxy.Website.{
  website_proxy_match, website_matches, longest, website_proxy_path_matches,
  website_proxy_upstream_path, is_allowed_website_proxy_method,
}
use kelinode_rs.SubscriptionProxy.Website.Longest.{IsChoice, website_proxy_match-IsChoice}
use kelinode_rs.SubscriptionProxy.Website.Redirect.{IsPrefix}
use kelinode_rs.SubscriptionProxy.Route.{plan_subscription_proxy_request}
use kelinode_rs.SubscriptionProxy.Route.Followed.{
  IsPicked, IsSiteUrl, site_url, given_location, redirect-planned,
}
use mathlib.Core.Path.{subst}

token_example : percent_encode_path_segment (text "a/b é") ≡ text "a%2Fb%20%C3%A9"
unfolding percent_encode_path_segment encode_bytes as_bytes is_alphanumeric is_digit
token_example = refl

percent_decode-percent_encode_example :
    percent_decode_path_segment (percent_encode_path_segment (text "a/b é")) ≡ ok (text "a/b é")
percent_decode-percent_encode_example =
    percent_decode-percent_encode (text "a/b é") (refl, (refl, (refl, (refl, (refl, tt)))))

-- A request in two reads, with a part of the next one after it.
abbrev reads : Reads
reads = ok (text "POST /a?b HTTP/1.1\r\nContent-Le") ∷ ok (text "ngth: 2\r\n\r\nhiGET") ∷ []

abbrev request_bytes : Bytes
request_bytes = text "POST /a?b HTTP/1.1\r\nContent-Length: 2\r\n\r\nhi"

read_lem : read_subscription_proxy_http_request 100 10 reads ≡ ok request_bytes
unfolding read_subscription_proxy_http_request read_subscription_proxy_http_request_head read_body
    read_exact read_after_head http_header_end request_content_length content_length_of from_utf8
    decode lead split_crlf split_once eq_ignore_ascii_case text_eq to_lower trim trim_matches
    trim_end trim_start is_whitespace parse_usize is_digit
read_lem = refl

read_request-IsFramed_example : IsFramed 100 10 (stream reads) request_bytes
read_request-IsFramed_example = read_request-IsFramed 100 10 reads request_bytes read_lem

-- A head of 41 bytes, with its blank line, under a limit of 41, in one read with the body and in one
-- of its own.
cut_matters :
    (read_subscription_proxy_http_request 41 10 (ok request_bytes ∷ [])
      ≡ err (text "http request header too large"))
    × (read_subscription_proxy_http_request 41 10 (ok (take 41 request_bytes) ∷ ok (text "hi") ∷ [])
        ≡ ok request_bytes)
unfolding read_subscription_proxy_http_request read_subscription_proxy_http_request_head read_body
    read_exact read_after_head http_header_end request_content_length content_length_of from_utf8
    decode lead split_crlf split_once eq_ignore_ascii_case text_eq to_lower trim trim_matches
    trim_end trim_start is_whitespace parse_usize is_digit
cut_matters = (refl, refl)

request_ends : http_header_end (stream reads) ≡ some 37
unfolding http_header_end
request_ends = refl

request_tells : request_content_length (take 37 (stream reads)) ≡ ok (some 2)
unfolding request_content_length content_length_of from_utf8 decode lead split_crlf split_once
    eq_ignore_ascii_case text_eq to_lower trim trim_matches trim_end trim_start is_whitespace
    parse_usize is_digit
request_tells = refl

abbrev small_request : HasRequest 100 10 (stream reads)
small_request = record {
  head = 37;
  content_length = some 2;
  ends = request_ends;
  tells = request_tells;
  unchunked = refl;
  whole = omega arith;
  small = inl (omega arith);
  body_bound = omega arith;
}

read_request_complete_example :
    read_subscription_proxy_http_request 100 10 reads
    ≡ ok (take (small_request.head + 4 + body_length small_request.content_length) (stream reads))
read_request_complete_example = read_request_complete 100 10 reads small_request (refl, (refl, tt))

-- A reply with a header and a cookie that would end a line, which are left out.
abbrev reply : SubscriptionProxyClientResponse
reply = record {
  status = 302;
  headers = (text "Bad", text "x\r\nY: z") ∷ (text "Location", text "/w") ∷ [];
  set_cookie_headers = text "a=1" ∷ text "b\n" ∷ [];
  body = text "ok";
}

rendered :
    render_subscription_proxy_http_response reply
    ≡ text
        "HTTP/1.1 302 Found\r\nContent-Length: 2\r\nConnection: close\r\nLocation: /w\r\nSet-Cookie: a=1\r\n\r\nok"
unfolding render_subscription_proxy_http_response render_headers render_cookies
    valid_http_header_name valid_http_header_value http_reason_phrase as_bytes decimal
    is_alphanumeric is_digit
rendered = refl

http_header_end-render_example :
    let written = render_subscription_proxy_http_response reply in
    let head = written_head reply in
    (http_header_end written ≡ some (length head))
    × (take (length head) written ≡ head)
    × (split_crlf head ≡ first_line reply ∷ other_lines reply)
    × All IsHeadLine (first_line reply ∷ other_lines reply)
    × (drop (length head + 4) written ≡ text "ok")
http_header_end-render_example = http_header_end-render reply

abbrev shop : WebsiteProxyProfile
shop = record {
  site_id = text "shop";
  upstream_base_url = text "https://shop.example/";
  path_prefix = text "shop/";
}

abbrev home : WebsiteProxyProfile
home = record { site_id = text "home"; upstream_base_url = text "http://h"; path_prefix = [] }

longest_prefix :
    website_proxy_match (home ∷ shop ∷ []) (text "/shop/a")
    ≡ some (record { profile = shop; prefix = text "/shop"; upstream_path = text "/a" })
unfolding website_proxy_match website_matches longest normalize_proxy_path_prefix trim trim_matches
    trim_end trim_start is_whitespace text_eq website_proxy_path_matches strip_prefix
    website_proxy_upstream_path len
longest_prefix = refl

website_proxy_match-IsChoice_example :
    IsChoice
      (text "/shop/a")
      (home ∷ shop ∷ [])
      (website_proxy_match (home ∷ shop ∷ []) (text "/shop/a"))
website_proxy_match-IsChoice_example =
    website_proxy_match-IsChoice (home ∷ shop ∷ []) (text "/shop/a")

shop-IsPrefix : IsPrefix (text "/shop")
unfolding normalize_proxy_path_prefix trim trim_matches trim_end trim_start is_whitespace text_eq
shop-IsPrefix = record { normal = refl; no_query = refl; no_end = inr refl }

abbrev shop_redirect : Text
shop_redirect = site_url shop (text "cart") (text "id=7")

shop_prefix : normalize_proxy_path_prefix shop.path_prefix ≡ text "/shop"
unfolding normalize_proxy_path_prefix trim trim_matches trim_end trim_start is_whitespace text_eq
shop_prefix = refl

cart-IsSiteUrl : IsSiteUrl shop (text "cart") (text "id=7")
unfolding trim_trailing_slashes trim trim_matches trim_end trim_start is_whitespace
    is_valid_upstream_base_url strip_prefix split
cart-IsSiteUrl = record {
  one_slash = refl;
  no_query = refl;
  no_mark = refl;
  trimmed = refl;
  stable = refl;
  valid = refl;
}

abbrev follows : SubscriptionProxyInboundRequest
follows = record {
  method = text "GET";
  path = text "/shop/cart";
  raw_query = text "id=7";
  host = text "n";
  remote_addr = [];
  headers = [];
  body = [];
}

follows-location :
    (follows.path, follows.raw_query)
    ≡ path_and_query (given_location shop (text "cart") (text "id=7"))
unfolding path_and_query rewrite_website_location prefixed_proxy_path split_once
    trim_trailing_slashes trim trim_matches trim_end trim_start is_whitespace strip_prefix text_eq
    normalize_proxy_path_prefix
follows-location = refl

follows-IsPicked : IsPicked shop (home ∷ shop ∷ []) follows
unfolding website_proxy_match website_matches longest normalize_proxy_path_prefix trim trim_matches
    trim_end trim_start is_whitespace text_eq website_proxy_path_matches strip_prefix
    website_proxy_upstream_path len is_allowed_website_proxy_method to_upper
follows-IsPicked = record { no_health = refl; no_subscription = refl; method = refl; picked = refl }

redirect-planned_example :
    (u : SubscriptionProxyUpstreamRequest) × (plan_subscription_proxy_request []
        (home ∷ shop ∷ [])
        follows
      ≡ ok (upstream u))
    × (u.url ≡ shop_redirect)
redirect-planned_example =
    redirect-planned shop (text "cart") (text "id=7") [] (home ∷ shop ∷ []) follows
      (subst IsPrefix (sym shop_prefix) shop-IsPrefix) cart-IsSiteUrl follows-location
      follows-IsPicked
