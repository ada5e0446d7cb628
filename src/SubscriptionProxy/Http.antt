-- ===== src/SubscriptionProxy/Http.antt =====
-- The requests that src/subscription_proxy.rs reads: the end of the head, the length of the body, the
-- parser, and the reader over a stream.
pub mod Reader
pub mod Printed
use kelinode_rs.Prelude.{
  ℕ, suc, ◌+◌, Bool, true, false, not, ◌&&◌, ◌||◌, Option, none, some, List, [], ◌∷◌, ◌==◌,
  if◌then◌else◌, is_empty, any, take, drop,
}
use kelinode_rs.Prelude.Text.{Text, text, trim, starts_with, split}
use kelinode_rs.Prelude.Str.{eq_ignore_ascii_case, split_once, split_whitespace, split_crlf}
use kelinode_rs.Prelude.Order.{text_ord}
use kelinode_rs.Prelude.Utf8.{Bytes, from_utf8}
use kelinode_rs.Prelude.Decimal.{parse_usize}
use kelinode_rs.Prelude.Result.{Result, ok, err, ◌>>=◌}
use kelinode_rs.BTreeMap.{BTreeMap, insert}
use kelinode_rs.SubscriptionProxy.{Headers, SubscriptionProxyInboundRequest}

abbrev pub crlf : Bytes
crlf = 13 ∷ 10 ∷ []

abbrev pub blank_line : Bytes
blank_line = 13 ∷ 10 ∷ 13 ∷ 10 ∷ []

abbrev pub next_place : Option ℕ → Option ℕ
next_place none = none
next_place (some n) = some (suc n)

-- `raw.windows(4).position(|window| window == b"\r\n\r\n")`
unfoldable pub http_header_end : Bytes → Option ℕ
http_header_end [] = none
http_header_end (b ∷ raw) =
    let later = http_header_end raw in
    if starts_with blank_line (b ∷ raw) then some 0 else next_place later

-- `ok_or_else`
abbrev pub required : {A : Type 0} → Text → Option A → Result Text A
required message none = err message
required message (some a) = ok a

abbrev pub tail_lines : List Text → List Text
tail_lines [] = []
tail_lines (_ ∷ lines) = lines

abbrev invalid_length : Text
invalid_length = text "invalid content-length header"

abbrev pub disagrees : Option ℕ → ℕ → Bool
disagrees none n = false
disagrees (some existing) n = not (existing == n)

abbrev pub agreeing : Bool → Result Text (Option ℕ) → Result Text (Option ℕ)
agreeing conflict rest = if conflict then err (text "conflicting content-length headers") else rest

-- The loop over the lines; a second length must agree with the first.
unfoldable pub content_length_of : Option ℕ → List Text → Result Text (Option ℕ)
content_length_of length [] = ok length
content_length_of length (line ∷ lines) =
    let skip = content_length_of length lines in
    elim (split_once b':' line) [
      | none ↦ skip
      | some (key, value) ↦
          if not (eq_ignore_ascii_case (trim key) (text "content-length")) then skip else (do
            parsed ← required invalid_length (parse_usize (trim value))
            agreeing (disagrees length parsed) (content_length_of (some parsed) lines))
    ]

abbrev pub decoded_head : Bytes → Result Text Text
decoded_head head = required (text "invalid utf-8 request") (from_utf8 head)

unfoldable pub request_content_length : Bytes → Result Text (Option ℕ)
request_content_length head = do
  s ← decoded_head head
  content_length_of none (tail_lines (split_crlf s))

abbrev pub is_chunked : Text → Bool
is_chunked line = elim (split_once b':' line) [
  | none ↦ false
  | some (key, value) ↦
      eq_ignore_ascii_case (trim key) (text "transfer-encoding")
      && any (λ part. eq_ignore_ascii_case (trim part) (text "chunked")) (split b',' value)
]

unfoldable pub request_has_chunked_body : Bytes → Bool
request_has_chunked_body head = elim (from_utf8 head) [
  | none ↦ false
  | some s ↦ any is_chunked (tail_lines (split_crlf s))
]

-- The three words of the request line; more words are not looked at.
unfoldable pub request_line_words : List Text → Result Text (Text × Text × Text)
request_line_words [] = err (text "missing http method")
request_line_words (method ∷ []) = err (text "missing http target")
request_line_words (method ∷ target ∷ []) = err (text "missing http version")
request_line_words (method ∷ target ∷ version ∷ _) = ok (method, target, version)

-- `split_once('?')`, or the target with an empty query.
unfoldable pub path_and_query : Text → Text × Text
path_and_query target = elim (split_once b'?' target) [
  | none ↦ (target, [])
  | some (path, query) ↦ (path, query)
]

abbrev pub invalid_header : Text
invalid_header = text "invalid http header"

-- The loop over the header lines: a later header of the same name replaces the earlier.
unfoldable pub parse_headers : Headers → List Text → Result Text Headers
parse_headers headers [] = ok headers
parse_headers headers (line ∷ lines) =
    let skip = parse_headers headers lines in
    if is_empty (trim line) then skip else elim (split_once b':' line) [
      | none ↦ err invalid_header
      | some (key, value) ↦
          if is_empty (trim key)
          then err invalid_header
          else parse_headers (insert (trim key) (trim value) headers) lines
    ]

-- The value of the first header that is named so, letter case aside; `unwrap_or_default`.
unfoldable pub header_or_empty : Text → Headers → Text
header_or_empty name [] = []
header_or_empty name ((key, value) ∷ headers) =
    let rest = header_or_empty name headers in if eq_ignore_ascii_case key name then value else rest

-- What is left of `parse_subscription_proxy_http_request` after the request line is split.
unfoldable pub parse_target :
    Text → Text → List Text → Bytes → Text → Result Text SubscriptionProxyInboundRequest
parse_target method target lines body remote_addr =
    let (path, raw_query) = path_and_query target in
    if is_empty path || not (starts_with (text "/") path)
    then err (text "invalid http path")
    else (parse_headers [] lines >>= λ headers. ok (record {
      method = method;
      path = path;
      raw_query = raw_query;
      host = header_or_empty (text "host") headers;
      remote_addr = remote_addr;
      headers = headers;
      body = body;
    }))

abbrev pub checked_version : Text → Result Text (Unit {0})
checked_version version =
    if starts_with (text "HTTP/") version then ok tt else err (text "invalid http version")

-- `parse_subscription_proxy_http_request` of a head that is decoded and the bytes after it.
unfoldable pub parse_head :
    Text → List Text → Bytes → Text → Result Text SubscriptionProxyInboundRequest
parse_head request_line lines body remote_addr = do
  (method, target, version) ← request_line_words (split_whitespace request_line)
  _ ← checked_version version
  parse_target method target lines body remote_addr

abbrev pub parse_lines : List Text → Bytes → Text → Result Text SubscriptionProxyInboundRequest
parse_lines [] body remote_addr = err (text "missing http request line")
parse_lines (request_line ∷ lines) body remote_addr = parse_head request_line lines body remote_addr

unfoldable pub parse_subscription_proxy_http_request :
    Bytes → Text → Result Text SubscriptionProxyInboundRequest
parse_subscription_proxy_http_request raw remote_addr = do
  header_end ← required (text "incomplete http request") (http_header_end raw)
  head ← decoded_head (take header_end raw)
  parse_lines (split_crlf head) (drop (header_end + 4) raw) remote_addr
