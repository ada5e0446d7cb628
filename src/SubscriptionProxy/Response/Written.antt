-- ===== src/SubscriptionProxy/Response/Written.antt =====
-- A reply that src/subscription_proxy.rs writes is read as the lines and the body that it is made
-- of: no value of a header can end its line or the head.
use kelinode_rs.Prelude.{
  ℕ, suc, ◌+◌, ◌&&◌, some, List, [], ◌∷◌, ◌++◌, append_assoc, length, take, drop, All, ◌≡◌, refl,
  sym, ap, ◌∙◌, arith, Bool-cases, inl, inr,
}
use kelinode_rs.Prelude.Text.{Text, text, join}
use kelinode_rs.Prelude.Str.{split_crlf}
use kelinode_rs.Prelude.Utf8.{Bytes, as_bytes}
use kelinode_rs.Prelude.Utf8.Laws.{as_bytes-append}
use kelinode_rs.Prelude.Decimal.{decimal}
use kelinode_rs.SubscriptionProxy.{Headers, SubscriptionProxyClientResponse}
use kelinode_rs.SubscriptionProxy.Http.{crlf, blank_line, http_header_end}
use kelinode_rs.SubscriptionProxy.Response.{
  valid_http_header_name, valid_http_header_value, header_line, status_line, with_crlf,
  render_headers, render_cookies, render_subscription_proxy_http_response,
}
use kelinode_rs.SubscriptionProxy.Response.Framing.{
  IsHeadLine, http_header_end-join, split_crlf-join,
}
use kelinode_rs.SubscriptionProxy.Response.Lines.{
  header_lines, cookie_lines, first_line, other_lines, first_line-IsHeadLine,
  other_lines-IsHeadLine,
}

abbrev pub written_head : SubscriptionProxyClientResponse → Bytes
written_head r = join crlf (first_line r ∷ other_lines r)

abbrev terminated : List Bytes → Bytes
terminated [] = []
terminated (s ∷ lines) = s ++ (crlf ++ terminated lines)

terminated-append : (ls ks : List Bytes) → terminated (ls ++ ks) ≡ terminated ls ++ terminated ks
terminated-append [] ks = refl
terminated-append (s ∷ ls) ks =
    ap (λ t. s ++ (crlf ++ t)) (terminated-append ls ks)
    ∙ sym (append_assoc s (crlf ++ terminated ls) (terminated ks))

terminated-join :
    (s : Bytes) (lines : List Bytes) (body : Bytes)
    → terminated (s ∷ lines) ++ (crlf ++ body) ≡ join crlf (s ∷ lines) ++ (blank_line ++ body)
unfolding join
terminated-join s [] body = append_assoc s crlf (crlf ++ body)
terminated-join s (t ∷ lines) body =
    append_assoc s (crlf ++ terminated (t ∷ lines)) (crlf ++ body)
    ∙ ap (λ u. s ++ (crlf ++ u)) (terminated-join t lines body)
    ∙ sym (append_assoc s (crlf ++ join crlf (t ∷ lines)) (blank_line ++ body))

crlf_bytes : as_bytes (text "\r\n") ≡ crlf
unfolding as_bytes
crlf_bytes = refl

one_line :
    (line : Text) (rest : Bytes)
    → as_bytes (with_crlf line) ++ rest ≡ as_bytes line ++ (crlf ++ rest)
one_line line rest =
    ap (λ s. s ++ rest) (as_bytes-append line (text "\r\n"))
    ∙ append_assoc (as_bytes line) (as_bytes (text "\r\n")) rest
    ∙ ap (λ s. as_bytes line ++ (s ++ rest)) crlf_bytes

render_headers_lem : (hs : Headers) → render_headers hs ≡ terminated (header_lines hs)
unfolding render_headers
render_headers_lem [] = refl
render_headers_lem ((key, value) ∷ hs) =
    elim (Bool-cases (valid_http_header_name key && valid_http_header_value value)) [
      | inl valid ↦ rw valid (
          ap (λ t. as_bytes (with_crlf (header_line key value)) ++ t) (render_headers_lem hs)
          ∙ one_line (header_line key value) (terminated (header_lines hs)))
      | inr bad ↦ rw bad (render_headers_lem hs)
    ]

render_cookies_lem : (cs : List Text) → render_cookies cs ≡ terminated (cookie_lines cs)
unfolding render_cookies
render_cookies_lem [] = refl
render_cookies_lem (value ∷ cs) = elim (Bool-cases (valid_http_header_value value)) [
  | inl valid ↦ rw valid (
      ap (λ t. as_bytes (with_crlf (header_line (text "Set-Cookie") value)) ++ t)
        (render_cookies_lem cs)
      ∙ one_line (header_line (text "Set-Cookie") value) (terminated (cookie_lines cs)))
  | inr bad ↦ rw bad (render_cookies_lem cs)
]

regroup : (s t u : Bytes) → s ++ (crlf ++ (t ++ u)) ≡ (s ++ (crlf ++ t)) ++ u
regroup s t u = sym (append_assoc s (crlf ++ t) u)

module _ (r : SubscriptionProxyClientResponse) where
  abbrev length_line : Text
  length_line = text "Content-Length: " ++ decimal (length r.body)

  abbrev kept_lines : List Bytes
  kept_lines = header_lines r.headers ++ cookie_lines r.set_cookie_headers

  abbrev after_head : Bytes
  after_head = crlf ++ r.body

  kept_lem :
      render_headers r.headers ++ (render_cookies r.set_cookie_headers ++ after_head)
      ≡ terminated kept_lines ++ after_head
  kept_lem =
      rw
        (
          render_headers_lem r.headers,
          render_cookies_lem r.set_cookie_headers,
          terminated-append (header_lines r.headers) (cookie_lines r.set_cookie_headers),
        )
        (sym (
          append_assoc (terminated (header_lines r.headers))
            (terminated (cookie_lines r.set_cookie_headers)) after_head))

  length_lem :
      (rest : Bytes)
      → as_bytes (with_crlf length_line) ++ (text "Connection: close\r\n" ++ (rest ++ after_head))
        ≡ (as_bytes length_line ++ (crlf ++ (text "Connection: close\r\n" ++ rest))) ++ after_head
  length_lem rest =
      one_line length_line (text "Connection: close\r\n" ++ (rest ++ after_head))
      ∙ regroup (as_bytes length_line) (text "Connection: close\r\n" ++ rest) after_head

  pub render_lem :
      render_subscription_proxy_http_response r ≡ written_head r ++ (blank_line ++ r.body)
  unfolding render_subscription_proxy_http_response
  render_lem =
      one_line (status_line r.status) _
      ∙ ap (λ s. first_line r ++ (crlf ++ s))
          (ap (λ s. as_bytes (with_crlf length_line) ++ (text "Connection: close\r\n" ++ s))
              kept_lem
            ∙ length_lem (terminated kept_lines))
      ∙ regroup (first_line r)
          (as_bytes length_line
            ++ (crlf ++ (text "Connection: close\r\n" ++ terminated kept_lines)))
          after_head
      ∙ terminated-join (first_line r) (other_lines r) r.body

pub take_all : (s t : Bytes) → take (length s) (s ++ t) ≡ s
take_all [] t = refl
take_all (b ∷ s) t = ap (λ u. b ∷ u) (take_all s t)

pub drop_all : (s t : Bytes) (n : ℕ) → drop (length s + n) (s ++ t) ≡ drop n t
drop_all [] t n = ap (λ k. drop k t) (omega arith)
drop_all (b ∷ s) t n =
    let e : length (b ∷ s) + n ≡ suc (length s + n) = omega arith in rw e (drop_all s t n)

-- For every reply, the head of what is written ends after its lines, which are those of the status,
-- of the length of the body and of the connection, then one for each header whose name is a token
-- and whose value has no break, then one for each cookie with no break; no line has a break in it,
-- and what follows the head and the blank line is the body.
pub http_header_end-render :
    (r : SubscriptionProxyClientResponse)
    → let written = render_subscription_proxy_http_response r in
      let head = written_head r in
      (http_header_end written ≡ some (length head))
      × (take (length head) written ≡ head)
      × (split_crlf head ≡ first_line r ∷ other_lines r)
      × All IsHeadLine (first_line r ∷ other_lines r)
      × (drop (length head + 4) written ≡ r.body)
http_header_end-render r =
    let h : All IsHeadLine (first_line r ∷ other_lines r) =
      (first_line-IsHeadLine r, other_lines-IsHeadLine r) in
    let e = render_lem r in
    let head = written_head r in
    (
      ap http_header_end e ∙ http_header_end-join (first_line r) (other_lines r) r.body h,
      ap (take (length head)) e ∙ take_all head (blank_line ++ r.body),
      split_crlf-join (first_line r) (other_lines r) h,
      h,
      ap (drop (length head + 4)) e ∙ drop_all head (blank_line ++ r.body) 4,
    )
