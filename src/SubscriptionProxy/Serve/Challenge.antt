-- ===== src/SubscriptionProxy/Serve/Challenge.antt =====
-- The validation of a certificate from end to end: what the challenge server of
-- src/subscription_proxy.rs writes to the CA that asks for the file that the node has written.
use kelinode_rs.Prelude.{
  ℕ, Bool, true, false, ◌+◌, Option, none, some, [], ◌++◌, Bool-cases, inl, inr, if◌then◌else◌,
  is_empty, length, ◌≡◌, refl, sym, ap, ◌∙◌, arith,
}
use kelinode_rs.Prelude.Text.{Text, text, trim, trim_matches, trim_end, trim_start, is_whitespace}
use kelinode_rs.Prelude.Trimmed.{trim_again}
use kelinode_rs.Prelude.Str.{contains}
use kelinode_rs.Prelude.Utf8.{Bytes}
use kelinode_rs.Prelude.Result.{Result, ok}
use kelinode_rs.SubscriptionProxy.{
  SubscriptionProxyConfig, SubscriptionProxyInboundRequest, SubscriptionProxyClientResponse,
  SubscriptionProxyFileWrite, SubscriptionProxyHttpServerPlan, challenge_file,
  default_challenge_dir,
}
use kelinode_rs.SubscriptionProxy.Paths.{first_non_empty, validation_file_name}
use kelinode_rs.SubscriptionProxy.Http.Reader.{Reads}
use kelinode_rs.SubscriptionProxy.Http.Reader.Loops.{stream}
use kelinode_rs.SubscriptionProxy.Http.Reader.Arrived.{AreRead}
use kelinode_rs.SubscriptionProxy.Http.Printed.{head_bytes, printed}
use kelinode_rs.SubscriptionProxy.Response.{plain_text}
use kelinode_rs.SubscriptionProxy.Route.{
  Fetch, is_read, is_head, upper_method, challenge_dir_of, plan_subscription_proxy_http_request,
  plan_subscription_proxy_http_server, handle_subscription_proxy_http_request,
}
use kelinode_rs.SubscriptionProxy.Certificate.{plan_subscription_proxy_validation_file}
use kelinode_rs.SubscriptionProxy.Certificate.Validation.{pki_path, validation_file-served}
use kelinode_rs.SubscriptionProxy.Manager.{challenges}
use kelinode_rs.SubscriptionProxy.Serve.{
  Stream, handler_of, challenge_handler, plain_written, serve_subscription_proxy_stream,
}
use kelinode_rs.SubscriptionProxy.Serve.Answered.{IsServable, serve-printed}

-- The configuration that the challenge server keeps.
abbrev pub kept_by :
    SubscriptionProxyHttpServerPlan → SubscriptionProxyConfig → SubscriptionProxyConfig
kept_by plan config = record config { challenge_dir = plan.challenge_dir }

-- The reply with a file.
abbrev pub file_reply : Bool → Bytes → SubscriptionProxyClientResponse
file_reply head_only content = record {
  status = 200;
  headers = plain_text;
  set_cookie_headers = [];
  body = if head_only then [] else content;
}

dir_again :
    (dir : Text)
    → first_non_empty
        (trim (first_non_empty (trim dir) default_challenge_dir))
        default_challenge_dir
      ≡ first_non_empty (trim dir) default_challenge_dir
unfolding trim trim_matches trim_end trim_start is_whitespace
dir_again dir = elim (Bool-cases (is_empty (trim dir))) [
  | inl e ↦ rw e refl
  | inr e ↦ rw (e, trim_again dir, e) refl
]

kept_dir :
    (config : SubscriptionProxyConfig) (plan : SubscriptionProxyHttpServerPlan)
    → plan_subscription_proxy_http_server config ≡ some plan
    → challenge_dir_of (kept_by plan config) ≡ challenge_dir_of config
unfolding plan_subscription_proxy_http_server
kept_dir config plan h =
    ap (λ p. challenge_dir_of (kept_by p config))
      (sym (started (is_empty (trim config.http_listen)) _ h))
    ∙ dir_again config.challenge_dir
  where
    started :
        (b : Bool) (p : SubscriptionProxyHttpServerPlan)
        → (if b then none else some p) ≡ some plan
        → p ≡ plan
    started true p h = cc
    started false p h = ground arith

kept_validation :
    (config : SubscriptionProxyConfig) (plan : SubscriptionProxyHttpServerPlan) (name : Text)
    → validation_file_name (trim config.zerossl.validation_path) ≡ some name
    → challenge_dir_of (kept_by plan config) ≡ challenge_dir_of config
    → plan_subscription_proxy_validation_file (kept_by plan config)
      ≡ plan_subscription_proxy_validation_file config
unfolding plan_subscription_proxy_validation_file
kept_validation config plan name named h =
    rw (named, plan_subscription_proxy_validation_file, h) refl

module _ {E : Type 0} (fetch : ℕ → Fetch E)
    (read_file : Text → E → Result Text (Option Bytes) × E) where
  file_handled :
      (config : SubscriptionProxyConfig) (r : SubscriptionProxyInboundRequest) (path : Text)
      (content : Bytes) (e e' : E)
      → plan_subscription_proxy_http_request config r ≡ ok (challenge_file path)
      → read_file path e ≡ (ok (some content), e')
      → challenge_handler read_file config r e ≡ (file_reply (is_head r) content, e')
  unfolding challenge_handler handle_subscription_proxy_http_request
  file_handled config r path content e e' planned found =
      rw (planned, handle_subscription_proxy_http_request, found) refl

  -- If a configuration orders a validation file and starts the challenge server, and the file is
  -- there with some content, then a connection that brings a `GET` or a `HEAD` of the file's name is
  -- written a reply with that content, or with an empty body for a `HEAD`. The name has no two dots in
  -- a row; the request is written as HTTP says, within the limits, and each read that begins within
  -- it returns some bytes, and at most 1024 if it begins within the head.
  pub validation-written :
      (config : SubscriptionProxyConfig) (plan : SubscriptionProxyHttpServerPlan)
      (w : SubscriptionProxyFileWrite) (name : Text)
      → plan_subscription_proxy_http_server config ≡ some plan
      → plan_subscription_proxy_validation_file config ≡ ok (some w)
      → validation_file_name (trim config.zerossl.validation_path) ≡ some name
      → contains (text "..") name ≡ false
      → (r : SubscriptionProxyInboundRequest) → IsServable r
      → is_read (upper_method r) ≡ true
      → r.path ≡ pki_path name
      → (reads : Reads) (rest : Bytes) → stream reads ≡ printed r ++ rest
      → AreRead (length (head_bytes r) + 4) (length (printed r)) reads
      → (s : Stream E) (content : Bytes) (e e' : E) → read_file w.path e ≡ (ok (some content), e')
      → serve_subscription_proxy_stream s
          (handler_of fetch read_file (challenges (kept_by plan config)))
          r.remote_addr
          reads
          e
        ≡ plain_written s (file_reply (is_head r) content, e')
  validation-written config plan w name starts ordered named dots r q read path reads rest there
        arrive s content e e' found =
      let config' = kept_by plan config in
      let handler = challenge_handler read_file config' in
      let ordered' =
        kept_validation config plan name named (kept_dir config plan starts) ∙ ordered in
      (serve-printed r q rest reads there arrive s handler e).0
      ∙ ap (plain_written s) (
          file_handled config' r w.path content e e'
            (validation_file-served config' r w name ordered' named dots read path) found)
