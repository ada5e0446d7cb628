-- ===== src/SubscriptionProxy/Serve.antt =====
-- One connection of the servers of src/subscription_proxy.rs: `serve_subscription_proxy_stream` and
-- `serve_subscription_proxy_tls_stream`, and what the two servers answer a request with. The stream
-- is the list of what its reads return, as in `Http.Reader`; its other operations are a `Stream`.
pub mod Answered
pub mod Challenge
use kelinode_rs.Prelude.{ℕ, ◌*◌, Option, ◌++◌}
use kelinode_rs.Prelude.Text.{Text, text}
use kelinode_rs.Prelude.Utf8.{Bytes}
use kelinode_rs.Prelude.Result.{Result, ok, err, ◌>>=◌}
use kelinode_rs.SubscriptionProxy.{
  SubscriptionProxyConfig, SubscriptionProxyInboundRequest, SubscriptionProxyClientResponse,
  SubscriptionProxyMainServerPlan, default_max_request_body_bytes,
}
use kelinode_rs.SubscriptionProxy.Http.{parse_subscription_proxy_http_request}
use kelinode_rs.SubscriptionProxy.Http.Reader.{Reads, read_subscription_proxy_http_request}
use kelinode_rs.SubscriptionProxy.Response.{
  render_subscription_proxy_http_response, subscription_proxy_error_response,
  subscription_proxy_bad_request_response,
}
use kelinode_rs.SubscriptionProxy.Route.{
  RouteResult, Fetch, handle_subscription_proxy_request, handle_subscription_proxy_http_request,
}
use kelinode_rs.SubscriptionProxy.Manager.{Service, fallback, tls, challenges}

abbrev pub max_header_bytes : ℕ
max_header_bytes = 32 * 1024

-- `rustls::ServerConnection::new` comes before the reads; the others after them.
pub record Stream (E : Type 0) : Type 0 where
  pub open_tls : E → Result Text (Unit {0}) × E
  pub write_all : Bytes → E → Result Text (Unit {0}) × E
  pub flush : E → Result Text (Unit {0}) × E
  pub send_close_notify : E → E
  pub shutdown : E → E

-- What answers a request.
abbrev pub Handler : Type 0 → Type 0
Handler E = SubscriptionProxyInboundRequest → E → SubscriptionProxyClientResponse × E

module _ {E : Type 0} where
  -- `unwrap_or_else(|err| subscription_proxy_error_response(&err))`
  abbrev pub or_error_response :
      RouteResult SubscriptionProxyClientResponse × E → SubscriptionProxyClientResponse × E
  or_error_response (ok response, e) = (response, e)
  or_error_response (err error, e) = (subscription_proxy_error_response error, e)

  -- The closure of both main servers.
  unfoldable pub main_handler : Fetch E → SubscriptionProxyMainServerPlan → Handler E
  main_handler fetch plan request e = or_error_response (
      handle_subscription_proxy_request plan.profiles plan.website_profiles request
        plan.max_response_bytes fetch e)

  unfoldable pub challenge_handler :
      (Text → E → Result Text (Option Bytes) × E) → SubscriptionProxyConfig → Handler E
  challenge_handler read_file config request e =
      or_error_response (handle_subscription_proxy_http_request config request read_file e)

  abbrev pub handler_of :
      (ℕ → Fetch E) → (Text → E → Result Text (Option Bytes) × E) → Service → Handler E
  handler_of fetch read_file (fallback plan) = main_handler (fetch plan.max_response_bytes) plan
  handler_of fetch read_file (tls plan) = main_handler (fetch plan.max_response_bytes) plan
  handler_of fetch read_file (challenges config) = challenge_handler read_file config

  abbrev pub reply_to :
      Handler E
      → Result Text SubscriptionProxyInboundRequest
      → E
      → SubscriptionProxyClientResponse × E
  reply_to handler (ok request) e = handler request e
  reply_to handler (err error) e = (subscription_proxy_bad_request_response error, e)

  -- The reply to what is read, the same in both functions.
  abbrev pub reply : Handler E → Text → Reads → E → SubscriptionProxyClientResponse × E
  reply handler remote_addr reads e =
      reply_to handler
        (read_subscription_proxy_http_request max_header_bytes default_max_request_body_bytes reads
          >>= λ raw. parse_subscription_proxy_http_request raw remote_addr)
        e

  -- `map_err`, with `?`.
  abbrev pub step_or :
      Text
      → Result Text (Unit {0}) × E
      → (E → Result Text (Unit {0}) × E)
      → Result Text (Unit {0}) × E
  step_or message (err error, e) next = (err (message ++ error), e)
  step_or message (ok _, e) next = next e

module _ {E : Type 0} (stream : Stream E) where
  -- What is done with the reply to a request.
  abbrev pub plain_written : SubscriptionProxyClientResponse × E → Result Text (Unit {0}) × E
  plain_written (response, e) =
      step_or (text "write subscription proxy response: ")
        (stream.write_all (render_subscription_proxy_http_response response) e)
        (λ e. (ok tt, stream.shutdown e))

  unfoldable pub serve_subscription_proxy_stream :
      Handler E → Text → Reads → E → Result Text (Unit {0}) × E
  serve_subscription_proxy_stream handler remote_addr reads e =
      plain_written (reply handler remote_addr reads e)

  abbrev pub tls_written : SubscriptionProxyClientResponse × E → Result Text (Unit {0}) × E
  tls_written (response, e) =
      step_or (text "write subscription proxy HTTPS response: ")
        (stream.write_all (render_subscription_proxy_http_response response) e)
        (λ e.
          step_or (text "flush subscription proxy HTTPS response: ") (stream.flush e)
            (λ e. (ok tt, stream.shutdown (stream.send_close_notify e))))

  unfoldable pub serve_subscription_proxy_tls_stream :
      Handler E → Text → Reads → E → Result Text (Unit {0}) × E
  serve_subscription_proxy_tls_stream handler remote_addr reads e =
      step_or (text "create subscription proxy TLS connection: ") (stream.open_tls e)
        (λ e. tls_written (reply handler remote_addr reads e))
