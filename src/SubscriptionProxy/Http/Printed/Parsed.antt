-- ===== src/SubscriptionProxy/Http/Printed/Parsed.antt =====
-- The parser of src/subscription_proxy.rs gives back a request that is written.
use kelinode_rs.Prelude.{
  true, false, some, [], ◌∷◌, ◌++◌, if◌then◌else◌, is_empty, map, length, All, All-append, ◌≡◌,
  refl, sym, ap, ◌∙◌, arith,
}
use kelinode_rs.Prelude.Text.{Text, text, starts_with, has_char, is_whitespace, join}
use kelinode_rs.Prelude.Str.{split_once, split_whitespace, split_crlf}
use kelinode_rs.Prelude.Trimmed.{split_once_at, split_once-none}
use kelinode_rs.Prelude.Words.{IsPlain, IsWord, split_whitespace-join}
use kelinode_rs.Prelude.Utf8.{as_bytes}
use kelinode_rs.Prelude.Utf8.Laws.{from_utf8-as_bytes}
use kelinode_rs.Prelude.Order.{text_ord}
use kelinode_rs.Prelude.Result.{ok}
use kelinode_rs.BTreeMap.Extension.{extend_sorted}
use kelinode_rs.SubscriptionProxy.{SubscriptionProxyInboundRequest}
use kelinode_rs.SubscriptionProxy.Http.{
  blank_line, http_header_end, decoded_head, request_line_words, path_and_query, parse_headers,
  parse_target, parse_head, parse_subscription_proxy_http_request,
}
use kelinode_rs.SubscriptionProxy.Response.Framing.{
  IsLine, IsHeadLine, http_header_end-join, split_crlf-join,
}
use kelinode_rs.SubscriptionProxy.Response.Written.{take_all, drop_all}
use kelinode_rs.SubscriptionProxy.Http.Printed.{
  target_of, request_line_of, header_texts, head_text, head_bytes, printed, IsWritable,
}
use kelinode_rs.SubscriptionProxy.Http.Printed.Lines.{
  IsPlain-IsLine, parse_headers-header_texts, header_texts-IsHeadLine, as_bytes-join,
  bytes-IsHeadLine,
}

IsPlain-append : (s t : Text) → IsPlain s → IsPlain t → IsPlain (s ++ t)
IsPlain-append s t = All-append (λ c. is_whitespace c ≡ false) s t

version-IsWord : IsWord (text "HTTP/1.1")
unfolding is_whitespace
version-IsWord = (refl, ground arith)

blank-IsLine : IsLine (b' ' ∷ [])
blank-IsLine = (refl, tt)

rooted-nonempty : (s : Text) → starts_with (text "/") s ≡ true → is_empty s ≡ false
rooted-nonempty [] h = cc
rooted-nonempty (c ∷ s) h = refl

target_read :
    (path query : Text)
    → has_char b'?' path ≡ false
    → path_and_query (if is_empty query then path else path ++ b'?' ∷ query) ≡ (path, query)
unfolding path_and_query split_once
target_read path [] h = rw (split_once-none b'?' path h) refl
target_read path (c ∷ query) h = rw (split_once_at b'?' path (c ∷ query) h, path_and_query) refl

target-IsWord :
    (path query : Text)
    → IsPlain path
    → IsPlain query
    → is_empty path ≡ false
    → IsWord (if is_empty query then path else path ++ b'?' ∷ query)
unfolding is_whitespace
target-IsWord path [] h k e = (e, h)
target-IsWord [] (d ∷ query) h k e = cc
target-IsWord (b ∷ path) (d ∷ query) h k e =
    (refl, IsPlain-append (b ∷ path) (b'?' ∷ d ∷ query) h (refl, k))

words-IsHeadLine :
    (s t : Text)
    → IsWord s
    → IsWord t
    → IsHeadLine (join (b' ' ∷ []) (s ∷ t ∷ text "HTTP/1.1" ∷ []))
unfolding join
words-IsHeadLine [] t (h, _) k = cc
words-IsHeadLine (c ∷ s) t (_, h) (_, k) = (
  refl,
  All-append _ (c ∷ s) (b' ' ∷ (t ++ text " HTTP/1.1")) (IsPlain-IsLine (c ∷ s) h)
      (refl, All-append _ t (text " HTTP/1.1") (IsPlain-IsLine t k) (ground arith)),
)

module _ (r : SubscriptionProxyInboundRequest) (w : IsWritable r) where
  abbrev target_word : IsWord (target_of r)
  target_word = target-IsWord r.path r.raw_query w.path w.query (rooted-nonempty r.path w.rooted)

  pub lines-IsHeadLine : All IsHeadLine (request_line_of r ∷ header_texts r.headers)
  lines-IsHeadLine = (
    words-IsHeadLine r.method (target_of r) w.method target_word,
    header_texts-IsHeadLine r.headers w.fields,
  )

  pub head_text-decoded : decoded_head (head_bytes r) ≡ ok (head_text r)
  head_text-decoded = rw (from_utf8-as_bytes (head_text r) w.string) refl

  pub head_text-split : split_crlf (head_text r) ≡ request_line_of r ∷ header_texts r.headers
  head_text-split = split_crlf-join (request_line_of r) (header_texts r.headers) lines-IsHeadLine

  pub http_header_end-printed : http_header_end (printed r) ≡ some (length (head_bytes r))
  http_header_end-printed =
      let lines = request_line_of r ∷ header_texts r.headers in
      let e = as_bytes-join lines in
      ap (λ s. http_header_end (s ++ (blank_line ++ r.body))) e
      ∙ http_header_end-join (as_bytes (request_line_of r)) (map as_bytes (header_texts r.headers))
          r.body (bytes-IsHeadLine lines lines-IsHeadLine)
      ∙ ap (λ s. some (length s)) (sym e)

  headers_read : parse_headers [] (header_texts r.headers) ≡ ok r.headers
  headers_read =
      parse_headers-header_texts r.headers [] w.fields ∙ ap ok (extend_sorted [] r.headers w.sorted)

  target_parsed :
      parse_target r.method (target_of r) (header_texts r.headers) r.body r.remote_addr ≡ ok r
  unfolding parse_target
  target_parsed =
      rw
        (
          target_read r.path r.raw_query w.no_mark,
          rooted-nonempty r.path w.rooted,
          w.rooted,
          headers_read,
          w.host,
        )
        refl

  words_read :
      request_line_words (split_whitespace (request_line_of r))
      ≡ ok (r.method, target_of r, text "HTTP/1.1")
  unfolding request_line_words
  words_read = ap request_line_words (
      split_whitespace-join r.method (target_of r ∷ text "HTTP/1.1" ∷ [])
        (w.method, (target_word, (version-IsWord, tt))))

  head_parsed : parse_head (request_line_of r) (header_texts r.headers) r.body r.remote_addr ≡ ok r
  unfolding parse_head
  head_parsed = rw (words_read, parse_head) target_parsed

  -- A request that can be written is read back, with every part of it, from what is written.
  pub parse_subscription_proxy_http_request-printed :
      parse_subscription_proxy_http_request (printed r) r.remote_addr ≡ ok r
  unfolding parse_subscription_proxy_http_request
  parse_subscription_proxy_http_request-printed =
      rw
        (
          http_header_end-printed,
          take_all (head_bytes r) (blank_line ++ r.body),
          head_text-decoded,
          head_text-split,
          drop_all (head_bytes r) (blank_line ++ r.body) 4,
        )
        head_parsed
