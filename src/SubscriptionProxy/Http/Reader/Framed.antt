-- ===== src/SubscriptionProxy/Http/Reader/Framed.antt =====
-- What src/subscription_proxy.rs reads of a stream, however the stream is cut into reads.
use kelinode_rs.Prelude.{
  ℕ, ◌+◌, ◌-◌, ◌≤◌, Bool, true, false, Option, none, some, [], ◌++◌, ltb, ◌==◌, if◌then◌else◌, take,
  length, length-append, length-take, append_assoc, ◌≡◌, refl, sym, ap, ◌∙◌, arith, if_intro,
}
use mathlib.Core.Path.{subst}
use kelinode_rs.Prelude.Text.{Text, text}
use kelinode_rs.Prelude.Utf8.{Bytes}
use kelinode_rs.Prelude.Result.{Result, ok, err, ◌>>=◌, bind-eq-ok}
use kelinode_rs.SubscriptionProxy.Http.{http_header_end, request_content_length, required}
use kelinode_rs.SubscriptionProxy.Http.Reader.{
  Reads, incomplete, read_subscription_proxy_http_request_head, read_exact, body_error, read_body,
  is_chunked_only, read_after_head, read_subscription_proxy_http_request,
}
use kelinode_rs.SubscriptionProxy.Http.Reader.Ends.{header_end-within, header_end-stays}
use kelinode_rs.SubscriptionProxy.Http.Reader.Loops.{
  stream, take_whole, take-append_short, take-append_length,
  read_subscription_proxy_http_request_head-IsHead, read_exact-IsExact, IsHead, IsExact,
}

-- What is read of a stream: the head up to its blank line and as many bytes as the head's
-- `Content-Length` says, or none without one.
abbrev pub body_length : Option ℕ → ℕ
body_length none = 0
body_length (some n) = n

pub record IsFramed (max_header max_body : ℕ) (all raw : Bytes) : Type 0 where
  pub head : ℕ
  pub content_length : Option ℕ
  pub ends : http_header_end all ≡ some head
  pub tells : request_content_length (take head all) ≡ ok content_length
  pub unchunked : is_chunked_only content_length (take head all) ≡ false
  pub taken : raw ≡ take (head + 4 + body_length content_length) all
  pub whole : length raw ≡ head + 4 + body_length content_length
  pub head_bound : head + 4 ≤ max_header
  pub body_bound : body_length content_length ≤ max_body

prefix_taken :
    (raw t all : Bytes) (size : ℕ) → raw ++ t ≡ all → length raw ≡ size → raw ≡ take size all
prefix_taken raw t all size cut l =
    sym (take-append_length raw t) ∙ ap (take (length raw)) cut ∙ ap (λ n. take n all) l

-- The part of what is read that the body's length says.
record IsTaken (max_body size length_of_body : ℕ) (all raw : Bytes) : Type 0 where
  same : raw ≡ take size all
  exact : length raw ≡ size
  bound : length_of_body ≤ max_body

ok_inside : (a b : Bytes) → ◌≡◌ {A = Result Text Bytes} (ok a) (ok b) → a ≡ b
ok_inside a b h = ground arith

module _ (max_body : ℕ) (start : ℕ) (raw0 : Bytes) (reads : Reads) (all : Bytes)
    (cut : raw0 ++ stream reads ≡ all) (within : start ≤ length raw0) where
  first-IsTaken :
      (n : ℕ)
      → start + n ≤ length raw0
      → n ≤ max_body
      → IsTaken max_body (start + n) n all (take (start + n) raw0)
  first-IsTaken n enough bound = record {
    same =
        sym (take-append_short (start + n) raw0 (stream reads) enough) ∙ ap (take (start + n)) cut;
    exact = omega (arith, length-take (start + n) raw0);
    bound = bound;
  }

  more-IsTaken :
      (n : ℕ) (body : Bytes)
      → n ≤ max_body
      → length raw0 ≤ start + n
      → IsExact (n - (length raw0 - start)) reads body
      → IsTaken max_body (start + n) n all (raw0 ++ body)
  more-IsTaken n body bound less (l, (t, e)) =
      let size : length (raw0 ++ body) ≡ start + n = omega (arith, length-append raw0 body) in
      record {
        same =
            prefix_taken (raw0 ++ body) t all (start + n)
              (append_assoc raw0 body t ∙ ap (λ s. raw0 ++ s) (sym e) ∙ cut) size;
        exact = size;
        bound = bound;
      }

  body_found :
      (n : ℕ) (m : Result Text Bytes) (raw : Bytes)
      → (body_error m >>= λ body. ok (raw0 ++ body)) ≡ ok raw
      → (body : Bytes) × (m ≡ ok body) × (raw0 ++ body ≡ raw)
  body_found n (ok body) raw h = (body, refl, ground arith)
  body_found n (err e) raw h = cc

  whole_head :
      (n : ℕ)
      → ((n - (length raw0 - start)) == 0) ≡ true
      → ltb n (length raw0 - start) ≡ false
      → take (start + n) raw0 ≡ raw0
  whole_head n none_left under = take_whole (start + n) raw0 (ground arith)

  read_body-IsTaken :
      (n : Option ℕ) (raw : Bytes)
      → read_body max_body start raw0 reads n ≡ ok raw
      → IsTaken max_body (start + body_length n) (body_length n) all raw
  unfolding read_body
  read_body-IsTaken none raw = λ h.
      let e : take start raw0 ≡ raw = ground arith in
      let first = first-IsTaken 0 (omega arith) (omega arith) in
      record {
        same = sym e ∙ ap (λ k. take k raw0) (omega arith) ∙ first.same;
        exact = ap length (sym e) ∙ omega (arith, length-take start raw0);
        bound = first.bound;
      }
  read_body-IsTaken (some n) raw =
      let already = length raw0 - start in
      let Q = λ (r : Result Text Bytes). r ≡ ok raw → IsTaken max_body (start + n) n all raw in
      if_intro Q (ltb max_body n) (λ _ h. cc)
        (λ small.
          if_intro Q (ltb n already)
            (λ over h.
              subst (IsTaken max_body (start + n) n all) (ok_inside (take (start + n) raw0) raw h)
                (first-IsTaken n (ground arith) (ground arith)))
            (λ under.
              if_intro Q ((n - already) == 0)
                (λ none_left h.
                  subst (IsTaken max_body (start + n) n all)
                    (whole_head n none_left under ∙ ok_inside raw0 raw h)
                    (first-IsTaken n (ground arith) (ground arith)))
                (λ some_left h.
                  let (body, e, same) = body_found n (read_exact (n - already) reads) raw h in
                  subst (IsTaken max_body (start + n) n all) same (
                    more-IsTaken n body (ground arith) (ground arith)
                      (read_exact-IsExact (n - already) reads body e)))))

abbrev after_chunked : Bool → Result Text Bytes → Result Text Bytes
after_chunked chunked rest =
    if chunked then err (text "chunked request bodies are not supported") else rest

unchunked_rest :
    (b : Bool) (r : Result Text Bytes) (raw : Bytes)
    → after_chunked b r ≡ ok raw
    → (b ≡ false) × (r ≡ ok raw)
unchunked_rest true r raw h = cc
unchunked_rest false r raw h = (refl, h)

required_found : (message : Text) (o : Option ℕ) (n : ℕ) → required message o ≡ ok n → o ≡ some n
required_found message none n h = cc
required_found message (some k) n h = ground arith

after_head-IsFramed :
    (max_header max_body : ℕ) (all raw0 raw : Bytes) (reads : Reads)
    → IsHead max_header all raw0 reads
    → read_after_head max_body (raw0, reads) ≡ ok raw
    → IsFramed max_header max_body all raw
unfolding read_after_head
after_head-IsFramed max_header max_body all raw0 raw reads head h =
    let (place, found, h1) = bind-eq-ok (required incomplete (http_header_end raw0)) _ raw h in
    let (n, told, h2) = bind-eq-ok (request_content_length (take place raw0)) _ raw h1 in
    let (plain, h3) =
      unchunked_rest (is_chunked_only n (take place raw0))
        (read_body max_body (place + 4) raw0 reads n) raw h2 in
    let ends = required_found incomplete (http_header_end raw0) place found in
    let within = header_end-within raw0 place ends in
    let same : take place raw0 ≡ take place all =
      sym (take-append_short place raw0 (stream reads) (omega arith)) ∙ ap (take place) head.cut in
    let body = read_body-IsTaken max_body (place + 4) raw0 reads all head.cut within n raw h3 in
    record {
      head = place;
      content_length = n;
      ends = ap http_header_end (sym head.cut) ∙ header_end-stays raw0 (stream reads) place ends;
      tells = ap request_content_length (sym same) ∙ told;
      unchunked = ap (is_chunked_only n) (sym same) ∙ plain;
      taken = body.same;
      whole = body.exact;
      head_bound = omega (arith, head.small);
      body_bound = body.bound;
    }

-- Whatever reads a request comes in: what is read, if it is, is the start of the stream, up to the
-- first blank line and then exactly as many bytes as `Content-Length` says, none without one; the
-- request is not one of chunks, its head with the blank line and its body keep their limits, and
-- nothing of what follows on the connection is taken into it.
pub read_request-IsFramed :
    (max_header max_body : ℕ) (reads : Reads) (raw : Bytes)
    → read_subscription_proxy_http_request max_header max_body reads ≡ ok raw
    → IsFramed max_header max_body (stream reads) raw
unfolding read_subscription_proxy_http_request
read_request-IsFramed max_header max_body reads raw h =
    let ((raw0, rest), found, h1) =
      bind-eq-ok (read_subscription_proxy_http_request_head max_header [] reads)
        (read_after_head max_body) raw h in
    after_head-IsFramed max_header max_body (stream reads) raw0 raw rest
      (read_subscription_proxy_http_request_head-IsHead max_header [] reads rest raw0 found) h1
