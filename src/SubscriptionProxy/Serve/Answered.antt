-- ===== src/SubscriptionProxy/Serve/Answered.antt =====
-- What a connection of src/subscription_proxy.rs answers to a request that is written as HTTP says.
use kelinode_rs.Prelude.{
  ℕ, ◌+◌, ◌≤◌, ◌++◌, append_assoc, length, length-append, take, ◌≡◌, sym, ap, ◌∙◌, inr, arith,
}
use mathlib.Core.Path.{subst}
use kelinode_rs.Prelude.Text.{text}
use kelinode_rs.Prelude.Utf8.{Bytes}
use kelinode_rs.Prelude.Decimal.{u64_max}
use kelinode_rs.Prelude.Result.{ok, ◌>>=◌}
use kelinode_rs.SubscriptionProxy.{SubscriptionProxyInboundRequest, default_max_request_body_bytes}
use kelinode_rs.SubscriptionProxy.Http.{
  blank_line, request_content_length, parse_subscription_proxy_http_request,
}
use kelinode_rs.SubscriptionProxy.Http.Reader.{
  Reads, is_chunked_only, read_subscription_proxy_http_request,
}
use kelinode_rs.SubscriptionProxy.Http.Reader.Ends.{header_end-stays}
use kelinode_rs.SubscriptionProxy.Http.Reader.Loops.{stream, take-append_length}
use kelinode_rs.SubscriptionProxy.Http.Reader.Framed.{body_length}
use kelinode_rs.SubscriptionProxy.Http.Reader.Arrived.{AreRead}
use kelinode_rs.SubscriptionProxy.Http.Reader.Complete.{HasRequest, read_request_complete}
use kelinode_rs.SubscriptionProxy.Http.Printed.{head_bytes, printed, IsWritable}
use kelinode_rs.SubscriptionProxy.Http.Printed.Parsed.{
  http_header_end-printed, parse_subscription_proxy_http_request-printed,
}
use kelinode_rs.SubscriptionProxy.Http.Printed.Length.{
  TellsLength, length_of, request_content_length-printed, body_length-printed, unchunked-printed,
}
use kelinode_rs.SubscriptionProxy.Serve.{
  Stream, Handler, max_header_bytes, reply, reply_to, step_or, plain_written, tls_written,
  serve_subscription_proxy_stream, serve_subscription_proxy_tls_stream,
}

read_on :
    (all : Bytes) (reads : Reads)
    → stream reads ≡ all
    → (q : HasRequest max_header_bytes default_max_request_body_bytes all)
    → AreRead (q.head + 4) (q.head + 4 + body_length q.content_length) reads
    → read_subscription_proxy_http_request max_header_bytes default_max_request_body_bytes reads
      ≡ ok (take (q.head + 4 + body_length q.content_length) all)
read_on all reads there =
    subst
      (λ all.
        (q : HasRequest max_header_bytes default_max_request_body_bytes all)
        → AreRead (q.head + 4) (q.head + 4 + body_length q.content_length) reads
        → read_subscription_proxy_http_request max_header_bytes default_max_request_body_bytes reads
          ≡ ok (take (q.head + 4 + body_length q.content_length) all))
      there (read_request_complete max_header_bytes default_max_request_body_bytes reads)

-- A request that the servers take: it can be written, tells its length, and keeps their limits.
pub record IsServable (r : SubscriptionProxyInboundRequest) : Type 0 where
  pub writable : IsWritable r
  pub tells : TellsLength r
  pub head_bound : length (head_bytes r) + 3 + 1024 ≤ max_header_bytes
  pub body_bound : length r.body ≤ default_max_request_body_bytes

module _ (r : SubscriptionProxyInboundRequest) (q : IsServable r) (rest : Bytes) where
  abbrev head : ℕ
  head = length (head_bytes r)

  bound : length r.body ≤ u64_max
  bound = omega (arith, q.body_bound)

  body_told : body_length (length_of r q.writable q.tells bound) ≡ length r.body
  body_told = body_length-printed r q.writable q.tells bound

  size_lem : head + 4 + body_length (length_of r q.writable q.tells bound) ≡ length (printed r)
  size_lem = omega (
    arith,
    body_told,
    length-append (head_bytes r) (blank_line ++ r.body),
    length-append blank_line r.body,
  )

  head_taken : take head (printed r ++ rest) ≡ head_bytes r
  head_taken =
      ap (take head) (append_assoc (head_bytes r) (blank_line ++ r.body) rest)
      ∙ take-append_length (head_bytes r) ((blank_line ++ r.body) ++ rest)

  abbrev request_printed :
      HasRequest max_header_bytes default_max_request_body_bytes (printed r ++ rest)
  request_printed = record {
    head = head;
    content_length = length_of r q.writable q.tells bound;
    ends = header_end-stays (printed r) rest head (http_header_end-printed r q.writable);
    tells =
        ap request_content_length head_taken
        ∙ request_content_length-printed r q.writable q.tells bound;
    unchunked =
        ap (is_chunked_only (length_of r q.writable q.tells bound)) head_taken
        ∙ unchunked-printed r q.writable q.tells bound;
    whole = omega (arith, size_lem, length-append (printed r) rest);
    small = inr (q.head_bound);
    body_bound = omega (arith, body_told, q.body_bound);
  }

  module _ (reads : Reads) (there : stream reads ≡ printed r ++ rest)
      (arrive : AreRead (length (head_bytes r) + 4) (length (printed r)) reads) where
    read-printed :
        read_subscription_proxy_http_request max_header_bytes default_max_request_body_bytes reads
        ≡ ok (printed r)
    read-printed =
        read_on (printed r ++ rest) reads there request_printed
          (subst (λ n. AreRead (head + 4) n reads) (sym size_lem) arrive)
        ∙ ap (λ n. ok (take n (printed r ++ rest))) size_lem
        ∙ ap ok (take-append_length (printed r) rest)

    reply-printed :
        {E : Type 0} (handler : Handler E) (e : E)
        → reply handler r.remote_addr reads e ≡ handler r e
    reply-printed handler e =
        ap
          (λ raw.
            reply_to handler (raw >>= λ b. parse_subscription_proxy_http_request b r.remote_addr) e)
          read-printed
        ∙ ap (λ p. reply_to handler p e)
            (parse_subscription_proxy_http_request-printed r q.writable)

    -- However a connection brings a request that is written as HTTP says, and whatever follows it,
    -- the server that reads it, over TLS or not, hands that very request to its handler, and what it
    -- then does depends on the handler's reply alone. The request tells the length of its body, which
    -- keeps the limit for bodies, and its blank line begins 1027 bytes before the limit for heads or
    -- earlier; each read that begins within the request returns some bytes, and at most 1024 if it
    -- begins within the head.
    pub serve-printed :
        {E : Type 0} (s : Stream E) (handler : Handler E) (e : E)
        → (serve_subscription_proxy_stream s handler r.remote_addr reads e
            ≡ plain_written s (handler r e))
          × (serve_subscription_proxy_tls_stream s handler r.remote_addr reads e
              ≡ step_or
                  (text "create subscription proxy TLS connection: ")
                  (s.open_tls e)
                  (λ e. tls_written s (handler r e)))
    unfolding serve_subscription_proxy_stream serve_subscription_proxy_tls_stream
    serve-printed s handler e = (
      ap (plain_written s) (reply-printed handler e),
      ap (λ k. step_or (text "create subscription proxy TLS connection: ") (s.open_tls e) k)
          (λ i e. tls_written s (reply-printed handler e i)),
    )
