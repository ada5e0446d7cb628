-- ===== src/SubscriptionProxy/ServeTests.antt =====
-- A connection of src/subscription_proxy.rs at a small request, which meets the hypotheses.
use kelinode_rs.Prelude.{
  ℕ, ◌+◌, List, Option, some, none, if◌then◌else◌, [], ◌∷◌, ◌++◌, length, ◌≡◌, refl, inl, inr,
  arith,
}
use kelinode_rs.Prelude.Text.{
  Text, text, text_eq, trim, trim_start, trim_end, trim_matches, is_whitespace, to_lower, join,
}
use kelinode_rs.Prelude.Str.{eq_ignore_ascii_case}
use kelinode_rs.Prelude.Decimal.{decimal}
use kelinode_rs.Prelude.Order.{text_cmp, text_ord}
use kelinode_rs.Prelude.Utf8.{Bytes, as_bytes}
use kelinode_rs.Prelude.Result.{Result, ok, err}
use kelinode_rs.SubscriptionProxy.{
  SubscriptionProxyInboundRequest, SubscriptionProxyHttpServerPlan, not_found,
}
use kelinode_rs.SubscriptionProxy.Http.{header_or_empty}
use kelinode_rs.SubscriptionProxy.Http.Reader.{Reads}
use kelinode_rs.SubscriptionProxy.Http.Reader.Loops.{stream}
use kelinode_rs.SubscriptionProxy.Http.Reader.Arrived.{AreRead}
use kelinode_rs.SubscriptionProxy.Http.Printed.{head_bytes, printed, IsWritable}
use kelinode_rs.SubscriptionProxy.Http.Printed.Length.{TellsLength}
use kelinode_rs.SubscriptionProxy.Response.{subscription_proxy_error_response}
use kelinode_rs.SubscriptionProxy.Manager.{challenges}
use kelinode_rs.SubscriptionProxy.Serve.{
  Stream, Handler, handler_of, plain_written, tls_written, serve_subscription_proxy_stream,
  serve_subscription_proxy_tls_stream,
}
use kelinode_rs.SubscriptionProxy.Serve.Answered.{IsServable, serve-printed}
use kelinode_rs.SubscriptionProxy.Serve.Challenge.{kept_by, file_reply, validation-written}
use kelinode_rs.SubscriptionProxy.Route.{Fetch, is_head, plan_subscription_proxy_http_server}
use kelinode_rs.SubscriptionProxy.ServerTests.{
  source, validation, validation_facts, ca_request, ca_reads,
}

abbrev challenge_plan : SubscriptionProxyHttpServerPlan
challenge_plan = record { listen = text ":80"; challenge_dir = text "/w/" }

abbrev posted : SubscriptionProxyInboundRequest
posted = record {
  method = text "POST";
  path = text "/w/a";
  raw_query = text "b=1";
  host = text "n";
  remote_addr = text "192.0.2.1:9";
  headers = (text "Content-Length", text "2") ∷ (text "Host", text "n") ∷ [];
  body = text "hi";
}

posted_head : head_bytes posted ≡ text "POST /w/a?b=1 HTTP/1.1\r\nContent-Length: 2\r\nHost: n"
unfolding join as_bytes
posted_head = refl

posted-IsWritable : IsWritable posted
unfolding is_whitespace trim trim_matches trim_end trim_start text_cmp header_or_empty
    eq_ignore_ascii_case text_eq to_lower join
posted-IsWritable = record {
  method = (refl, ground arith);
  path = ground arith;
  rooted = refl;
  no_mark = refl;
  query = ground arith;
  fields = ground arith;
  sorted = (refl, (tt, tt));
  host = refl;
  string = ground arith;
}

posted-TellsLength : TellsLength posted
unfolding eq_ignore_ascii_case text_eq to_lower decimal
posted-TellsLength = record { lengths = (inr refl, (inl refl, tt)); told = inl refl }

posted-IsServable : IsServable posted
posted-IsServable = record {
  writable = posted-IsWritable;
  tells = posted-TellsLength;
  head_bound = rw posted_head (omega arith);
  body_bound = omega arith;
}

-- The request in two reads, the second of which brings the start of another.
abbrev two_reads : Reads
two_reads =
    ok (text "POST /w/a?b=1 HTTP/1.1\r\nContent-Length: 2\r\nHost: n\r")
    ∷ ok (text "\n\r\nhiGET")
    ∷ []

two_reads-stream : stream two_reads ≡ printed posted ++ text "GET"
two_reads-stream = rw posted_head refl

two_reads-AreRead : AreRead (length (head_bytes posted) + 4) (length (printed posted)) two_reads
two_reads-AreRead = rw posted_head (refl, (refl, tt))

-- A stream that keeps what is written, and a handler that finds nothing.
abbrev kept : Stream (List Bytes)
kept = record {
  open_tls = λ e. (ok tt, e);
  write_all = λ bytes e. (ok tt, e ++ bytes ∷ []);
  flush = λ e. (ok tt, e);
  send_close_notify = λ e. e;
  shutdown = λ e. e;
}

abbrev finds_nothing : Handler (List Bytes)
finds_nothing request e = (subscription_proxy_error_response not_found, e)

serve-printed_example :
    (serve_subscription_proxy_stream kept finds_nothing (text "192.0.2.1:9") two_reads []
      ≡ plain_written kept (subscription_proxy_error_response not_found, []))
    × (serve_subscription_proxy_tls_stream kept finds_nothing (text "192.0.2.1:9") two_reads []
        ≡ tls_written kept (subscription_proxy_error_response not_found, []))
serve-printed_example =
    serve-printed posted posted-IsServable (text "GET") two_reads two_reads-stream two_reads-AreRead
      kept finds_nothing []

challenge_server : plan_subscription_proxy_http_server source ≡ some challenge_plan
unfolding plan_subscription_proxy_http_server trim trim_matches trim_end trim_start is_whitespace
challenge_server = refl

ca_head : head_bytes ca_request ≡ text "get /.well-known/pki-validation/A1.txt HTTP/1.1"
unfolding join as_bytes
ca_head = refl

ca_request-IsWritable : IsWritable ca_request
unfolding is_whitespace header_or_empty join
ca_request-IsWritable = record {
  method = (refl, ground arith);
  path = ground arith;
  rooted = refl;
  no_mark = refl;
  query = tt;
  fields = tt;
  sorted = tt;
  host = refl;
  string = ground arith;
}

ca_request-IsServable : IsServable ca_request
ca_request-IsServable = record {
  writable = ca_request-IsWritable;
  tells = record { lengths = tt; told = inr (refl, refl) };
  head_bound = rw ca_head (omega arith);
  body_bound = omega arith;
}

abbrev ca_bytes : Reads
ca_bytes = ok (text "get /.well-known/pki-validation/A1.txt HTTP/1.1\r\n\r\n") ∷ []

ca_bytes-stream : stream ca_bytes ≡ printed ca_request ++ []
ca_bytes-stream = rw ca_head refl

ca_bytes-AreRead :
    AreRead (length (head_bytes ca_request) + 4) (length (printed ca_request)) ca_bytes
ca_bytes-AreRead = rw ca_head (refl, tt)

-- The file that the node wrote is the only one that there is.
abbrev only_validation : Text → List Bytes → Result Text (Option Bytes) × List Bytes
only_validation path e =
    if text_eq path validation.path then (ok (some validation.content), e) else (ok none, e)

abbrev fetches_nothing : ℕ → Fetch (List Bytes)
fetches_nothing limit request e = (err not_found, e)

validation_read : only_validation validation.path [] ≡ (ok (some validation.content), [])
unfolding text_eq
validation_read = refl

validation-written_example :
    serve_subscription_proxy_stream kept
      (handler_of fetches_nothing only_validation (challenges (kept_by challenge_plan source)))
      []
      ca_bytes
      []
    ≡ plain_written kept (file_reply (is_head ca_request) (text "abc\n"), [])
validation-written_example =
    validation-written fetches_nothing only_validation source challenge_plan validation
      (text "A1.txt") challenge_server validation_facts.0 validation_facts.1 validation_facts.2
      ca_request ca_request-IsServable ca_reads refl ca_bytes [] ca_bytes-stream ca_bytes-AreRead
      kept (text "abc\n") [] [] validation_read
