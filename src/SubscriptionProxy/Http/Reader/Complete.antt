-- ===== src/SubscriptionProxy/Http/Reader/Complete.antt =====
-- When src/subscription_proxy.rs reads a request.
use kelinode_rs.Prelude.{
  ℕ, ◌+◌, ◌-◌, ◌≤◌, true, false, Option, none, some, [], take, length, length-append, ◌≡◌, refl,
  sym, ap, ◌∙◌, arith,
}
use mathlib.Core.Path.{subst}
use kelinode_rs.Prelude.Text.{Text}
use kelinode_rs.Prelude.Utf8.{Bytes}
use kelinode_rs.Prelude.Result.{Result, ok, err}
use kelinode_rs.SubscriptionProxy.Http.{http_header_end, request_content_length}
use kelinode_rs.SubscriptionProxy.Http.Reader.{
  Reads, is_found, read_body, is_chunked_only, read_after_head,
  read_subscription_proxy_http_request,
}
use kelinode_rs.SubscriptionProxy.Http.Reader.Ends.{header_end-within, header_end-stays}
use kelinode_rs.SubscriptionProxy.Http.Reader.Loops.{
  stream, take-append_short, read_subscription_proxy_http_request_head-IsHead,
}
use kelinode_rs.SubscriptionProxy.Http.Reader.Framed.{body_length, read_request-IsFramed}
use kelinode_rs.SubscriptionProxy.Http.Reader.Arrived.{AreRead, Keeps, IsOk, head_read, body_read}

found_ok : (o : Option ℕ) → is_found o ≡ true → (n : ℕ) × (o ≡ some n)
found_ok none h = cc
found_ok (some n) h = (n, refl)

after_read :
    (max_body place : ℕ) (raw : Bytes) (reads : Reads) (n : Option ℕ)
    → http_header_end raw ≡ some place
    → request_content_length (take place raw) ≡ ok n
    → is_chunked_only n (take place raw) ≡ false
    → IsOk (read_body max_body (place + 4) raw reads n)
    → IsOk (read_after_head max_body (raw, reads))
unfolding read_after_head
after_read max_body place raw reads n ends tells plain h = rw (ends, tells, plain) h

-- The stream has a request that keeps the limits, with the whole of its body.
pub record HasRequest (max_header max_body : ℕ) (all : Bytes) : Type 0 where
  pub head : ℕ
  pub content_length : Option ℕ
  pub ends : http_header_end all ≡ some head
  pub tells : request_content_length (take head all) ≡ ok content_length
  pub unchunked : is_chunked_only content_length (take head all) ≡ false
  pub whole : head + 4 + body_length content_length ≤ length all
  pub small : Keeps max_header head all
  pub body_bound : body_length content_length ≤ max_body

some_inside : (a b : ℕ) → ◌≡◌ {A = Option ℕ} (some a) (some b) → a ≡ b
some_inside a b h = ground arith

from_start :
    (head left : ℕ) (reads : Reads)
    → AreRead head left reads
    → AreRead (head - length {A = ℕ} []) (left - length {A = ℕ} []) reads
from_start head left reads r =
    let same : head ≡ head - length {A = ℕ} [] = omega arith in
    let rest : left ≡ left - length {A = ℕ} [] = omega arith in
    subst (λ h. AreRead h (left - length {A = ℕ} []) reads) same
      (subst (λ k. AreRead head k reads) rest r)

request-IsOk :
    (max_header max_body : ℕ) (reads : Reads)
    → (q : HasRequest max_header max_body (stream reads))
    → AreRead (q.head + 4) (q.head + 4 + body_length q.content_length) reads
    → IsOk (read_subscription_proxy_http_request max_header max_body reads)
unfolding read_subscription_proxy_http_request http_header_end
request-IsOk max_header max_body reads q r =
    let size = q.head + 4 + body_length q.content_length in
    let read = from_start (q.head + 4) size reads r in
    let h = head_read max_header q.head size [] reads read (omega arith) refl q.ends q.small in
    let (place, ends) = found_ok (http_header_end h.raw) h.ends in
    let cut =
      (read_subscription_proxy_http_request_head-IsHead max_header [] reads h.rest h.raw
        h.found).cut in
    let same_place : place ≡ q.head =
      some_inside place q.head (
        sym (header_end-stays h.raw (stream h.rest) place ends)
        ∙ ap http_header_end cut
        ∙ q.ends) in
    let within = header_end-within h.raw place ends in
    let head : take place h.raw ≡ take q.head (stream reads) =
      sym (take-append_short place h.raw (stream h.rest) (omega arith))
      ∙ ap (take place) cut
      ∙ ap (λ k. take k (stream reads)) same_place in
    rw h.found (
      after_read max_body place h.raw h.rest q.content_length ends
        (ap request_content_length head ∙ q.tells)
        (ap (is_chunked_only q.content_length) head ∙ q.unchunked)
        (body_read max_body h.head (place + 4) h.raw h.rest q.content_length
          (subst (λ k. AreRead h.head (k + 4 + body_length q.content_length - length h.raw) h.rest)
            (sym same_place) h.more)
          within q.body_bound
          (omega (arith, q.whole, same_place, ap length cut, length-append h.raw (stream h.rest)))))

ok_value : (m : Result Text Bytes) → IsOk m → (raw : Bytes) × (m ≡ ok raw)
ok_value (ok raw) h = (raw, refl)
ok_value (err e) h = cc

ok_inside : (a b : Option ℕ) → ◌≡◌ {A = Result Text (Option ℕ)} (ok a) (ok b) → a ≡ b
ok_inside a b h = ground arith

-- However a stream is cut into reads, the request that it has is read, its head with the blank line
-- and its body, and nothing after it. The request is not one of chunks and its body keeps the limit
-- for bodies; the stream keeps the limit for heads, or the blank line begins 1027 bytes before that
-- limit or earlier. Each read that begins within the request returns some bytes, and at most 1024 if
-- it begins within the head.
pub read_request_complete :
    (max_header max_body : ℕ) (reads : Reads)
    → (q : HasRequest max_header max_body (stream reads))
    → AreRead (q.head + 4) (q.head + 4 + body_length q.content_length) reads
    → read_subscription_proxy_http_request max_header max_body reads
      ≡ ok (take (q.head + 4 + body_length q.content_length) (stream reads))
read_request_complete max_header max_body reads q r =
    let all = stream reads in
    let (raw, e) =
      ok_value (read_subscription_proxy_http_request max_header max_body reads)
        (request-IsOk max_header max_body reads q r) in
    let f = read_request-IsFramed max_header max_body reads raw e in
    let place = some_inside f.head q.head (sym f.ends ∙ q.ends) in
    let size =
      ok_inside f.content_length q.content_length
        (sym f.tells ∙ ap (λ k. request_content_length (take k all)) place ∙ q.tells) in
    e
    ∙ ap ok (
        f.taken
        ∙ ap (λ k. take (k + 4 + body_length f.content_length) all) place
        ∙ ap (λ n. take (q.head + 4 + body_length n) all) size)
