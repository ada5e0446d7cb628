-- ===== src/SubscriptionProxy/Http/Printed.antt =====
-- A request as a client writes it, for the parser of src/subscription_proxy.rs: a request line of
-- three words, a line for each header, a blank line and the body.
pub mod Lines
pub mod Parsed
pub mod Length
use kelinode_rs.Prelude.{
  ℕ, Bool, true, false, List, [], ◌∷◌, ◌++◌, if◌then◌else◌, is_empty, map, All, ◌≡◌,
}
use kelinode_rs.Prelude.Text.{Text, text, trim, starts_with, has_char, join}
use kelinode_rs.Prelude.Words.{IsPlain, IsWord}
use kelinode_rs.Prelude.Utf8.{Bytes, as_bytes}
use kelinode_rs.Prelude.Utf8.Laws.{IsString}
use kelinode_rs.Prelude.Order.{text_ord}
use kelinode_rs.BTreeMap.Laws.{IsSorted}
use kelinode_rs.SubscriptionProxy.{Headers, SubscriptionProxyInboundRequest}
use kelinode_rs.SubscriptionProxy.Http.{crlf, blank_line, header_or_empty}
use kelinode_rs.SubscriptionProxy.Response.{header_line}
use kelinode_rs.SubscriptionProxy.Response.Framing.{IsLine}

abbrev pub target_of : SubscriptionProxyInboundRequest → Text
target_of r = if is_empty r.raw_query then r.path else r.path ++ b'?' ∷ r.raw_query

abbrev pub request_line_of : SubscriptionProxyInboundRequest → Text
request_line_of r = join (b' ' ∷ []) (r.method ∷ target_of r ∷ text "HTTP/1.1" ∷ [])

abbrev pub header_texts : Headers → List Text
header_texts [] = []
header_texts ((key, value) ∷ headers) = header_line key value ∷ header_texts headers

abbrev pub head_text : SubscriptionProxyInboundRequest → Text
head_text r = join crlf (request_line_of r ∷ header_texts r.headers)

abbrev pub head_bytes : SubscriptionProxyInboundRequest → Bytes
head_bytes r = as_bytes (head_text r)

abbrev pub printed : SubscriptionProxyInboundRequest → Bytes
printed r = head_bytes r ++ (blank_line ++ r.body)

-- A header whose name is a word with no colon, and whose value has no blank at its ends and no break.
abbrev pub IsField : Text × Text → Type 0
IsField (key, value) =
    IsWord key × (has_char b':' key ≡ false) × (trim value ≡ value) × IsLine value

-- A request that can be written: its words have no blanks, its path starts with a slash and has no
-- question mark, its headers are a map of such headers, and its host is that of the headers.
pub record IsWritable (r : SubscriptionProxyInboundRequest) : Type 0 where
  pub method : IsWord r.method
  pub path : IsPlain r.path
  pub rooted : starts_with (text "/") r.path ≡ true
  pub no_mark : has_char b'?' r.path ≡ false
  pub query : IsPlain r.raw_query
  pub fields : All IsField r.headers
  pub sorted : IsSorted r.headers
  pub host : header_or_empty (text "host") r.headers ≡ r.host
  pub string : IsString (head_text r)
