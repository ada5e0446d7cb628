-- ===== src/SubscriptionProxy/Http/Reader.antt =====
-- `read_subscription_proxy_http_request` of src/subscription_proxy.rs. The stream is the list of what
-- its reads return, one after the other: some bytes, none at the end, or an error; a read returns no
-- more bytes than it is asked for.
pub mod Ends
pub mod Loops
pub mod Framed
pub mod Arrived
pub mod Complete
use kelinode_rs.Prelude.{
  ℕ, ◌+◌, ◌-◌, Bool, true, false, Option, none, some, List, [], ◌∷◌, ◌++◌, ltb, leb, ◌==◌,
  if◌then◌else◌, is_empty, take, drop, length,
}
use kelinode_rs.Prelude.Text.{Text, text}
use kelinode_rs.Prelude.Utf8.{Bytes}
use kelinode_rs.Prelude.Result.{Result, ok, err, ◌>>=◌}
use kelinode_rs.SubscriptionProxy.Http.{
  http_header_end, request_content_length, request_has_chunked_body, required,
}

abbrev pub Reads : Type 0
Reads = List (Result Text Bytes)

abbrev pub is_found : Option ℕ → Bool
is_found none = false
is_found (some n) = true

abbrev pub incomplete : Text
incomplete = text "incomplete http request"

-- The loop over the reads with the output so far; what is left of the reads is returned.
unfoldable pub read_subscription_proxy_http_request_head :
    ℕ → Bytes → Reads → Result Text (Bytes × Reads)
read_subscription_proxy_http_request_head max_header_bytes output [] = err incomplete
read_subscription_proxy_http_request_head max_header_bytes output (err e ∷ reads) =
    err (text "read subscription proxy request: " ++ e)
read_subscription_proxy_http_request_head max_header_bytes output (ok chunk ∷ reads) =
    let more = output ++ chunk in
    let rest = read_subscription_proxy_http_request_head max_header_bytes more reads in
    if is_empty chunk
    then err incomplete
    else if ltb max_header_bytes (length more)
    then err (text "http request header too large")
    else if is_found (http_header_end more)
    then ok (more, reads)
    else rest

-- `read_exact`
unfoldable pub read_exact : ℕ → Reads → Result Text Bytes
read_exact remaining [] = if remaining == 0 then ok [] else err (text "failed to fill whole buffer")
read_exact remaining (err e ∷ reads) = if remaining == 0 then ok [] else err e
read_exact remaining (ok chunk ∷ reads) =
    let rest = read_exact (remaining - length chunk) reads in
    if remaining == 0
    then ok []
    else if is_empty chunk
    then err (text "failed to fill whole buffer")
    else (rest >>= λ body. ok (take remaining chunk ++ body))

abbrev pub body_error : Result Text Bytes → Result Text Bytes
body_error (ok body) = ok body
body_error (err e) = err (text "read subscription proxy request body: " ++ e)

-- The part after the head is read, with the place where the body starts.
unfoldable pub read_body : ℕ → ℕ → Bytes → Reads → Option ℕ → Result Text Bytes
read_body max_body_bytes body_start raw reads none = ok (take body_start raw)
read_body max_body_bytes body_start raw reads (some content_length) =
    let already_read = length raw - body_start in
    let remaining = content_length - already_read in
    if ltb max_body_bytes content_length
    then err (text "http request body too large")
    else if ltb content_length already_read
    then ok (take (body_start + content_length) raw)
    else if remaining == 0
    then ok raw
    else (body_error (read_exact remaining reads) >>= λ body. ok (raw ++ body))

abbrev pub is_chunked_only : Option ℕ → Bytes → Bool
is_chunked_only none head = request_has_chunked_body head
is_chunked_only (some n) head = false

unfoldable pub read_after_head : ℕ → Bytes × Reads → Result Text Bytes
read_after_head max_body_bytes (raw, reads) = do
  header_end ← required incomplete (http_header_end raw)
  content_length ← request_content_length (take header_end raw)
  if is_chunked_only content_length (take header_end raw)
      then err (text "chunked request bodies are not supported")
      else read_body max_body_bytes (header_end + 4) raw reads content_length

unfoldable pub read_subscription_proxy_http_request : ℕ → ℕ → Reads → Result Text Bytes
read_subscription_proxy_http_request max_header_bytes max_body_bytes reads =
    read_subscription_proxy_http_request_head max_header_bytes [] reads
    >>= read_after_head max_body_bytes
