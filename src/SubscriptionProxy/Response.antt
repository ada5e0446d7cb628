-- ===== src/SubscriptionProxy/Response.antt =====
-- The replies of src/subscription_proxy.rs: those to errors, and how a reply is written on the wire.
pub mod Framing
pub mod Lines
pub mod Written
use kelinode_rs.Prelude.{
  ℕ, Bool, not, ◌&&◌, ◌||◌, List, [], ◌∷◌, ◌++◌, leb, ◌==◌, if◌then◌else◌, is_empty, all, any,
  length,
}
use kelinode_rs.Prelude.Text.{Text, text, is_alphanumeric}
use kelinode_rs.Prelude.Decimal.{decimal}
use kelinode_rs.Prelude.Order.{text_ord}
use kelinode_rs.Prelude.Utf8.{Bytes, as_bytes}
use kelinode_rs.BTreeMap.{insert}
use kelinode_rs.SubscriptionProxy.{
  Headers, SubscriptionProxyClientResponse, SubscriptionProxyRouteError, not_found,
  method_not_allowed, bad_gateway,
}
use kelinode_rs.SubscriptionProxy.Http.{crlf}

unfoldable pub http_reason_phrase : ℕ → Text
http_reason_phrase status =
    if status == 200
    then text "OK"
    else if status == 301
    then text "Moved Permanently"
    else if status == 302
    then text "Found"
    else if status == 303
    then text "See Other"
    else if status == 307
    then text "Temporary Redirect"
    else if status == 308
    then text "Permanent Redirect"
    else if status == 400
    then text "Bad Request"
    else if status == 404
    then text "Not Found"
    else if status == 405
    then text "Method Not Allowed"
    else if status == 502
    then text "Bad Gateway"
    else text "OK"

abbrev pub is_token_byte : ℕ → Bool
is_token_byte byte = is_alphanumeric byte || any (λ mark. byte == mark) (text "!#$%&'*+-.^_`|~")

unfoldable pub valid_http_header_name : Text → Bool
valid_http_header_name value = not (is_empty value) && all is_token_byte (as_bytes value)

abbrev pub is_break : ℕ → Bool
is_break byte = byte == 13 || byte == 10

unfoldable pub valid_http_header_value : Text → Bool
valid_http_header_value value = not (any is_break (as_bytes value))

abbrev pub with_crlf : Text → Text
with_crlf line = line ++ text "\r\n"

abbrev pub header_line : Text → Text → Text
header_line key value = key ++ (text ": " ++ value)

-- The loop over the headers, and the one over the cookies.
unfoldable pub render_headers : Headers → Bytes
render_headers [] = []
render_headers ((key, value) ∷ headers) =
    let rest = render_headers headers in
    if valid_http_header_name key && valid_http_header_value value
    then as_bytes (with_crlf (header_line key value)) ++ rest
    else rest

unfoldable pub render_cookies : List Text → Bytes
render_cookies [] = []
render_cookies (value ∷ cookies) =
    let rest = render_cookies cookies in
    if valid_http_header_value value
    then as_bytes (with_crlf (header_line (text "Set-Cookie") value)) ++ rest
    else rest

abbrev pub status_line : ℕ → Text
status_line status = text "HTTP/1.1 " ++ (decimal status ++ (text " " ++ http_reason_phrase status))

unfoldable pub render_subscription_proxy_http_response : SubscriptionProxyClientResponse → Bytes
render_subscription_proxy_http_response response =
    as_bytes (with_crlf (status_line response.status))
    ++ (as_bytes (with_crlf (text "Content-Length: " ++ decimal (length response.body)))
        ++ (text "Connection: close\r\n"
            ++ (render_headers response.headers
                ++ (render_cookies response.set_cookie_headers ++ (crlf ++ response.body)))))

abbrev pub plain_text : Headers
plain_text = insert (text "Content-Type") (text "text/plain; charset=utf-8") []

unfoldable pub status_code : SubscriptionProxyRouteError → ℕ
status_code not_found = 404
status_code method_not_allowed = 405
status_code (bad_gateway _) = 502

abbrev message : SubscriptionProxyRouteError → Text
message not_found = text "not found"
message method_not_allowed = text "method not allowed"
message (bad_gateway _) = text "bad gateway"

unfoldable pub subscription_proxy_error_response :
    SubscriptionProxyRouteError → SubscriptionProxyClientResponse
unfolding status_code
subscription_proxy_error_response error = record {
  status = status_code error;
  headers = plain_text;
  set_cookie_headers = [];
  body = as_bytes (message error ++ text "\n");
}

unfoldable pub subscription_proxy_bad_request_response : Text → SubscriptionProxyClientResponse
subscription_proxy_bad_request_response error = record {
  status = 400;
  headers = plain_text;
  set_cookie_headers = [];
  body = as_bytes (error ++ text "\n");
}
