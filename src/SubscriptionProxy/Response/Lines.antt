-- ===== src/SubscriptionProxy/Response/Lines.antt =====
-- The lines of a reply of src/subscription_proxy.rs, and that none of them has a break in it.
use kelinode_rs.Prelude.{
  ℕ, true, false, ◌&&◌, List, [], ◌∷◌, ◌++◌, if◌then◌else◌, is_empty, all, any, length, All,
  All-append, ◌≡◌, refl, ap, ◌∙◌, arith, if_intro,
}
use kelinode_rs.Prelude.Text.{Text, text, is_alphanumeric, is_digit}
use kelinode_rs.Prelude.Utf8.{Bytes, as_bytes, bytes_of}
use kelinode_rs.Prelude.Utf8.Laws.{as_bytes-append}
use kelinode_rs.Prelude.Decimal.{decimal}
use kelinode_rs.Prelude.Decimal.Laws.{AllDigits, decimal-AllDigits}
use kelinode_rs.SubscriptionProxy.{Headers, SubscriptionProxyClientResponse}
use kelinode_rs.SubscriptionProxy.Response.{
  is_break, is_token_byte, valid_http_header_name, valid_http_header_value, header_line,
  status_line, http_reason_phrase,
}
use kelinode_rs.SubscriptionProxy.Response.Framing.{IsLine, IsHeadLine}

-- The lines that a reply has: those of the headers whose name is a token and whose value has no
-- break, and those of the cookies with no break, in their order.
abbrev pub header_lines : Headers → List Bytes
header_lines [] = []
header_lines ((key, value) ∷ headers) =
    let rest = header_lines headers in
    if valid_http_header_name key && valid_http_header_value value
    then as_bytes (header_line key value) ∷ rest
    else rest

abbrev pub cookie_lines : List Text → List Bytes
cookie_lines [] = []
cookie_lines (value ∷ cookies) =
    let rest = cookie_lines cookies in
    if valid_http_header_value value
    then as_bytes (header_line (text "Set-Cookie") value) ∷ rest
    else rest

abbrev pub first_line : SubscriptionProxyClientResponse → Bytes
first_line r = as_bytes (status_line r.status)

abbrev pub other_lines : SubscriptionProxyClientResponse → List Bytes
other_lines r =
    as_bytes (text "Content-Length: " ++ decimal (length r.body))
    ∷ text "Connection: close"
    ∷ (header_lines r.headers ++ cookie_lines r.set_cookie_headers)

-- Lines of the parts.
IsLine-append : (s t : Bytes) → IsLine s → IsLine t → IsLine (s ++ t)
IsLine-append s t = All-append (λ b. is_break b ≡ false) s t

not_any : (s : Bytes) → any is_break s ≡ false → IsLine s
not_any [] h = tt
not_any (b ∷ s) h = (ground arith, not_any s (ground arith))

value-IsLine : (value : Text) → valid_http_header_value value ≡ true → IsLine (as_bytes value)
unfolding valid_http_header_value
value-IsLine value h = not_any (as_bytes value) (ground arith)

token_byte-plain : (b : ℕ) → is_token_byte b ≡ true → is_break b ≡ false
unfolding is_alphanumeric
token_byte-plain b h = ground arith

tokens-IsLine : (s : Bytes) → all is_token_byte s ≡ true → IsLine s
tokens-IsLine [] h = tt
tokens-IsLine (b ∷ s) h = (token_byte-plain b (ground arith), tokens-IsLine s (ground arith))

name-IsLine : (name : Text) → valid_http_header_name name ≡ true → IsLine (as_bytes name)
unfolding valid_http_header_name
name-IsLine name h = tokens-IsLine (as_bytes name) (ground arith)

colon-IsLine : IsLine (as_bytes (text ": "))
unfolding as_bytes
colon-IsLine = (refl, (refl, tt))

header_line-IsLine :
    (key value : Text)
    → IsLine (as_bytes key)
    → IsLine (as_bytes value)
    → IsLine (as_bytes (header_line key value))
header_line-IsLine key value h k =
    rw (as_bytes-append key (text ": " ++ value), as_bytes-append (text ": ") value)
      (IsLine-append (as_bytes key) (as_bytes (text ": ") ++ as_bytes value) h
        (IsLine-append (as_bytes (text ": ")) (as_bytes value) colon-IsLine k))

plain_char : (c : ℕ) → is_break c ≡ false → IsLine (bytes_of c)
plain_char c h = ground arith

pub plain-IsLine : (s : Text) → All (λ c. is_break c ≡ false) s → IsLine (as_bytes s)
unfolding as_bytes
plain-IsLine [] h = tt
plain-IsLine (c ∷ s) (h, hs) =
    IsLine-append (bytes_of c) (as_bytes s) (plain_char c h) (plain-IsLine s hs)

digit-plain : (c : ℕ) → is_digit c ≡ true → is_break c ≡ false
unfolding is_digit
digit-plain c h = ground arith

digits-plain : (s : Text) → AllDigits s → All (λ c. is_break c ≡ false) s
digits-plain [] h = tt
digits-plain (c ∷ s) (h, hs) = (digit-plain c h, digits-plain s hs)

decimal-IsLine : (n : ℕ) → IsLine (as_bytes (decimal n))
decimal-IsLine n = plain-IsLine (decimal n) (digits-plain (decimal n) (decimal-AllDigits n))

reason-IsLine : (status : ℕ) → IsLine (as_bytes (http_reason_phrase status))
unfolding http_reason_phrase as_bytes
reason-IsLine status = ground arith

nonempty-append : (s : Bytes) (b : ℕ) (t : Bytes) → is_empty (s ++ b ∷ t) ≡ false
nonempty-append [] b t = refl
nonempty-append (c ∷ s) b t = refl

colon_first : (s : Bytes) (value : Text) → is_empty (s ++ as_bytes (text ": " ++ value)) ≡ false
unfolding as_bytes
colon_first s value = nonempty-append s b':' (as_bytes (b' ' ∷ value))

header_line-IsHeadLine :
    (key value : Text)
    → IsLine (as_bytes key)
    → IsLine (as_bytes value)
    → IsHeadLine (as_bytes (header_line key value))
header_line-IsHeadLine key value h k = (
  ap is_empty (as_bytes-append key (text ": " ++ value)) ∙ colon_first (as_bytes key) value,
  header_line-IsLine key value h k,
)

header_lines-IsHeadLine : (hs : Headers) → All IsHeadLine (header_lines hs)
header_lines-IsHeadLine [] = tt
header_lines-IsHeadLine ((key, value) ∷ hs) =
    if_intro (λ lines. All IsHeadLine lines)
      (valid_http_header_name key && valid_http_header_value value)
      (λ e. (
        header_line-IsHeadLine key value (name-IsLine key (ground arith))
            (value-IsLine value (ground arith)),
        header_lines-IsHeadLine hs,
      ))
      (λ e. header_lines-IsHeadLine hs)

set_cookie-IsLine : IsLine (as_bytes (text "Set-Cookie"))
unfolding as_bytes
set_cookie-IsLine = ground arith

cookie_lines-IsHeadLine : (cs : List Text) → All IsHeadLine (cookie_lines cs)
cookie_lines-IsHeadLine [] = tt
cookie_lines-IsHeadLine (value ∷ cs) =
    if_intro (λ lines. All IsHeadLine lines) (valid_http_header_value value)
      (λ e. (
        header_line-IsHeadLine (text "Set-Cookie") value set_cookie-IsLine (value-IsLine value e),
        cookie_lines-IsHeadLine cs,
      ))
      (λ e. cookie_lines-IsHeadLine cs)

-- A text that starts with a letter and has a number after some plain text.
pub first_line-IsHeadLine : (r : SubscriptionProxyClientResponse) → IsHeadLine (first_line r)
unfolding as_bytes
first_line-IsHeadLine r = (
  refl,
  rw (as_bytes-append (decimal r.status) (text " " ++ http_reason_phrase r.status)) (
      IsLine-append (as_bytes (text "HTTP/1.1 ")) _ (ground arith) (
        IsLine-append (as_bytes (decimal r.status)) _ (decimal-IsLine r.status)
          (refl, reason-IsLine r.status))),
)

pub other_lines-IsHeadLine : (r : SubscriptionProxyClientResponse) → All IsHeadLine (other_lines r)
unfolding as_bytes
other_lines-IsHeadLine r = (
  (
    refl,
    IsLine-append (as_bytes (text "Content-Length: ")) _ (ground arith)
        (decimal-IsLine (length r.body)),
  ),
  (
    ground arith,
    All-append IsHeadLine (header_lines r.headers) (cookie_lines r.set_cookie_headers)
        (header_lines-IsHeadLine r.headers) (cookie_lines-IsHeadLine r.set_cookie_headers),
  ),
)
