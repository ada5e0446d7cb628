-- ===== src/SubscriptionProxy/Percent.antt =====
-- `percent_encode_path_segment` and `percent_decode_path_segment` of src/subscription_proxy.rs.
pub mod RoundTrip
use kelinode_rs.Prelude.{
  ℕ, ◌+◌, ◌-◌, ◌*◌, ◌/◌, ◌%◌, Bool, ◌&&◌, ◌||◌, Option, none, some, [], ◌∷◌, ◌++◌, leb, ltb, ◌==◌,
  if◌then◌else◌,
}
use kelinode_rs.Prelude.Text.{Text, text, is_alphanumeric}
use kelinode_rs.Prelude.Utf8.{Bytes, as_bytes, from_utf8}
use kelinode_rs.Prelude.Result.{Result, ok, err, ◌>>=◌}

-- A digit of `{:02X}`.
abbrev pub hex_digit : ℕ → ℕ
hex_digit n = if ltb n 10 then b'0' + n else b'A' + (n - 10)

abbrev pub is_unreserved : ℕ → Bool
is_unreserved byte =
    is_alphanumeric byte || (byte == b'-' || (byte == b'_' || (byte == b'.' || byte == b'~')))

abbrev pub encode_byte : ℕ → Text
encode_byte byte =
    if is_unreserved byte
    then byte ∷ []
    else b'%' ∷ hex_digit (byte / 16) ∷ hex_digit (byte % 16) ∷ []

-- The loop over the bytes.
unfoldable pub encode_bytes : Bytes → Text
encode_bytes [] = []
encode_bytes (byte ∷ bytes) = encode_byte byte ++ encode_bytes bytes

unfoldable pub percent_encode_path_segment : Text → Text
percent_encode_path_segment value = encode_bytes (as_bytes value)

unfoldable pub hex_value : ℕ → Option ℕ
hex_value byte =
    if leb b'0' byte && leb byte b'9'
    then some (byte - b'0')
    else if leb b'a' byte && leb byte b'f'
    then some (byte - b'a' + 10)
    else if leb b'A' byte && leb byte b'F'
    then some (byte - b'A' + 10)
    else none

abbrev pub invalid_escape : Text
invalid_escape = text "invalid escaped token"

-- `ok_or_else` with the error of an escape.
abbrev pub escaped : Option ℕ → Result Text ℕ
escaped none = err invalid_escape
escaped (some n) = ok n

abbrev pub push_byte : ℕ → Result Text Bytes → Result Text Bytes
push_byte byte (err e) = err e
push_byte byte (ok bytes) = ok (byte ∷ bytes)

-- The loop over the bytes, which steps over three of them at an escape.
unfoldable pub decode_bytes : Bytes → Result Text Bytes
decode_bytes [] = ok []
decode_bytes (byte ∷ []) = if byte == b'%' then err invalid_escape else ok (byte ∷ [])
decode_bytes (byte ∷ next ∷ []) =
    let rest = decode_bytes (next ∷ []) in
    if byte == b'%' then err invalid_escape else push_byte byte rest
decode_bytes (byte ∷ high ∷ low ∷ bytes) =
    let plain = decode_bytes (high ∷ low ∷ bytes) in
    let after = decode_bytes bytes in
    if byte == b'%'
    then (do
      hi ← escaped (hex_value high)
      lo ← escaped (hex_value low)
      push_byte (hi * 16 + lo) after)
    else push_byte byte plain

abbrev decoded : Option Text → Result Text Text
decoded none = err invalid_escape
decoded (some s) = ok s

unfoldable pub percent_decode_path_segment : Text → Result Text Text
percent_decode_path_segment value = do
  output ← decode_bytes (as_bytes value)
  decoded (from_utf8 output)
