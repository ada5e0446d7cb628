-- ===== src/SubscriptionProxy/Percent/RoundTrip.antt =====
-- A token that is encoded and decoded is the token.
use kelinode_rs.Prelude.{
  ℕ, ◌+◌, ◌*◌, ◌/◌, ◌%◌, ◌<◌, true, false, some, [], ◌∷◌, ◌++◌, ltb, ◌==◌, ◌≡◌, refl, ap, ◌∙◌,
  arith, Bool-cases, inl, inr, All, All-append,
}
use kelinode_rs.Prelude.Text.{Text, is_alphanumeric}
use kelinode_rs.Prelude.Utf8.{Bytes, as_bytes, bytes_of, is_scalar}
use kelinode_rs.Prelude.Utf8.Laws.{IsString, from_utf8-as_bytes}
use kelinode_rs.Prelude.Result.{ok}
use kelinode_rs.SubscriptionProxy.Percent.{
  hex_digit, is_unreserved, encode_byte, encode_bytes, percent_encode_path_segment, hex_value,
  push_byte, decode_bytes, percent_decode_path_segment,
}

abbrev IsByte : ℕ → Type 0
IsByte b = b < 256

hex_value-hex_digit : (n : ℕ) → n < 16 → hex_value (hex_digit n) ≡ some n
unfolding hex_value
hex_value-hex_digit n h = ground arith

hex_digit-lt : (n : ℕ) → n < 16 → hex_digit n < 128
hex_digit-lt n h = ground arith

decode_plain :
    (b : ℕ) (s : Bytes) → (b == b'%') ≡ false → decode_bytes (b ∷ s) ≡ push_byte b (decode_bytes s)
unfolding decode_bytes
decode_plain b [] h = rw h refl
decode_plain b (c ∷ []) h = rw h refl
decode_plain b (c ∷ d ∷ s) h = rw h refl

decode_escape :
    (high low hi lo : ℕ) (s : Bytes)
    → hex_value high ≡ some hi
    → hex_value low ≡ some lo
    → decode_bytes (b'%' ∷ high ∷ low ∷ s) ≡ push_byte (hi * 16 + lo) (decode_bytes s)
unfolding decode_bytes
decode_escape high low hi lo s h k = rw (h, k) refl

unreserved-ne-percent : (b : ℕ) → is_unreserved b ≡ true → (b == b'%') ≡ false
unfolding is_alphanumeric
unreserved-ne-percent b h = ground arith

-- One byte that is encoded is one that is decoded, whatever follows.
decode_bytes-encode_byte :
    (b : ℕ) (s : Bytes) → b < 256 → decode_bytes (encode_byte b ++ s) ≡ push_byte b (decode_bytes s)
decode_bytes-encode_byte b s h = elim (Bool-cases (is_unreserved b)) [
  | inl plain ↦ rw plain (decode_plain b s (unreserved-ne-percent b plain))
  | inr other ↦ rw other (
      decode_escape (hex_digit (b / 16)) (hex_digit (b % 16)) (b / 16) (b % 16) s
        (hex_value-hex_digit (b / 16) (omega arith)) (hex_value-hex_digit (b % 16) (omega arith))
      ∙ ap (λ v. push_byte v (decode_bytes s)) (omega arith))
]

decode_bytes-encode_bytes : (s : Bytes) → All IsByte s → decode_bytes (encode_bytes s) ≡ ok s
unfolding encode_bytes
decode_bytes-encode_bytes [] h = unfold decode_bytes in refl
decode_bytes-encode_bytes (b ∷ s) (h, hs) =
    decode_bytes-encode_byte b (encode_bytes s) h
    ∙ ap (push_byte b) (decode_bytes-encode_bytes s hs)

-- An encoded text is ASCII, its bytes are its characters.
as_bytes_ascii : (s : Text) → All (λ c. c < 0x80) s → as_bytes s ≡ s
unfolding as_bytes
as_bytes_ascii [] h = refl
as_bytes_ascii (c ∷ s) (h, hs) =
    let small : ltb c 0x80 ≡ true = ground arith in rw small (ap (λ t. c ∷ t) (as_bytes_ascii s hs))

unreserved-lt : (b : ℕ) → is_unreserved b ≡ true → b < 0x80
unfolding is_alphanumeric
unreserved-lt b h = ground arith

encode_byte-ascii : (b : ℕ) → b < 256 → All (λ c. c < 0x80) (encode_byte b)
encode_byte-ascii b h = elim (Bool-cases (is_unreserved b)) [
  | inl plain ↦ rw plain (unreserved-lt b plain, tt)
  | inr other ↦ rw other (
    omega arith,
    (hex_digit-lt (b / 16) (omega arith), (hex_digit-lt (b % 16) (omega arith), tt)),
  )
]

encode_bytes-ascii : (s : Bytes) → All IsByte s → All (λ c. c < 0x80) (encode_bytes s)
unfolding encode_bytes
encode_bytes-ascii [] h = tt
encode_bytes-ascii (b ∷ s) (h, hs) =
    All-append (λ c. c < 0x80) (encode_byte b) (encode_bytes s) (encode_byte-ascii b h)
      (encode_bytes-ascii s hs)

bytes_of-IsByte : (c : ℕ) → is_scalar c ≡ true → All IsByte (bytes_of c)
bytes_of-IsByte c h = ground arith

as_bytes-IsByte : (s : Text) → IsString s → All IsByte (as_bytes s)
unfolding as_bytes
as_bytes-IsByte [] h = tt
as_bytes-IsByte (c ∷ s) (h, hs) =
    All-append IsByte (bytes_of c) (as_bytes s) (bytes_of-IsByte c h) (as_bytes-IsByte s hs)

-- Whatever characters a token has, decoding the segment that it is encoded to gives the token.
pub percent_decode-percent_encode :
    (token : Text)
    → IsString token
    → percent_decode_path_segment (percent_encode_path_segment token) ≡ ok token
unfolding percent_decode_path_segment percent_encode_path_segment
percent_decode-percent_encode token h =
    let small = as_bytes-IsByte token h in
    rw
      (
        as_bytes_ascii (encode_bytes (as_bytes token)) (encode_bytes-ascii (as_bytes token) small),
        decode_bytes-encode_bytes (as_bytes token) small,
        from_utf8-as_bytes token h,
      )
      refl
