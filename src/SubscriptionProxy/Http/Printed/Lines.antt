-- ===== src/SubscriptionProxy/Http/Printed/Lines.antt =====
-- The lines of a request that is written for the parser of src/subscription_proxy.rs, and what the
-- loop over the headers reads from them.
use kelinode_rs.Prelude.{
  ℕ, false, some, List, [], ◌∷◌, ◌++◌, is_empty, map, All, All-append, ◌≡◌, refl, ap, ◌∙◌, arith,
}
use kelinode_rs.Prelude.Text.{
  Text, text, trim, trim_end, trim_matches, is_whitespace, has_char, join,
}
use kelinode_rs.Prelude.Str.{split_once}
use kelinode_rs.Prelude.Trimmed.{split_once_at, trim_start_kept, trim_end_first}
use kelinode_rs.Prelude.Words.{IsPlain, IsWord, trim_plain, trim_blank}
use kelinode_rs.Prelude.Utf8.{as_bytes}
use kelinode_rs.Prelude.Utf8.Laws.{as_bytes-append}
use kelinode_rs.Prelude.Order.{text_ord}
use kelinode_rs.Prelude.Result.{ok}
use kelinode_rs.BTreeMap.{extend, insert}
use kelinode_rs.SubscriptionProxy.{Headers}
use kelinode_rs.SubscriptionProxy.Http.{crlf, parse_headers}
use kelinode_rs.SubscriptionProxy.Response.{header_line, is_break}
use kelinode_rs.SubscriptionProxy.Response.Framing.{IsLine, IsHeadLine}
use kelinode_rs.SubscriptionProxy.Response.Lines.{plain-IsLine}
use kelinode_rs.SubscriptionProxy.Http.Printed.{header_texts, IsField}

-- Words and their parts are lines.
plain-unbroken : (c : ℕ) → is_whitespace c ≡ false → is_break c ≡ false
unfolding is_whitespace
plain-unbroken c h = ground arith

pub IsPlain-IsLine : (s : Text) → IsPlain s → IsLine s
IsPlain-IsLine [] h = tt
IsPlain-IsLine (c ∷ s) (h, hs) = (plain-unbroken c h, IsPlain-IsLine s hs)

-- The value of a header as it stands after the colon.
abbrev pub after_colon : Text → Text
after_colon value = b' ' ∷ value

pub header_line-split :
    (key value : Text)
    → has_char b':' key ≡ false
    → split_once b':' (header_line key value) ≡ some (key, after_colon value)
header_line-split key value h = split_once_at b':' key (after_colon value) h

pub after_colon-trim : (value : Text) → trim value ≡ value → trim (after_colon value) ≡ value
after_colon-trim value h = trim_blank value ∙ h

trim_kept : (c : ℕ) (s : Text) → is_whitespace c ≡ false → is_empty (trim (c ∷ s)) ≡ false
unfolding trim trim_matches
trim_kept c s h =
    let (t, e) = trim_end_first is_whitespace c s h in
    ap (λ u. is_empty (trim_end is_whitespace u)) (trim_start_kept is_whitespace c s h)
    ∙ ap is_empty e

pub header_line-nonempty :
    (key value : Text) → IsWord key → is_empty (trim (header_line key value)) ≡ false
header_line-nonempty [] value (h, _) = cc
header_line-nonempty (c ∷ key) value (_, (h, _)) = trim_kept c _ h

header_read :
    (key value : Text) (headers : Headers) (lines : List Text)
    → IsField (key, value)
    → parse_headers headers (header_line key value ∷ lines)
      ≡ parse_headers (insert key value headers) lines
unfolding parse_headers
header_read key value headers lines (word, no_colon, trimmed, _) =
    rw
      (
        header_line-nonempty key value word,
        header_line-split key value no_colon,
        trim_plain key word.1,
        word.0,
        after_colon-trim value trimmed,
      )
      refl

pub parse_headers-header_texts :
    (headers acc : Headers)
    → All IsField headers
    → parse_headers acc (header_texts headers) ≡ ok (extend acc headers)
unfolding parse_headers extend
parse_headers-header_texts [] acc h = refl
parse_headers-header_texts ((key, value) ∷ headers) acc (h, hs) =
    header_read key value acc (header_texts headers) h
    ∙ parse_headers-header_texts headers (insert key value acc) hs

nonempty-append : (s t : Text) → is_empty s ≡ false → is_empty (s ++ t) ≡ false
nonempty-append [] t h = cc
nonempty-append (c ∷ s) t h = refl

pub header_texts-IsHeadLine :
    (headers : Headers) → All IsField headers → All IsHeadLine (header_texts headers)
header_texts-IsHeadLine [] h = tt
header_texts-IsHeadLine ((key, value) ∷ headers) ((word, _, _, line), hs) = (
  (
    nonempty-append key (text ": " ++ value) word.0,
    All-append (λ b. is_break b ≡ false) key (text ": " ++ value) (IsPlain-IsLine key word.1)
        (refl, (refl, line)),
  ),
  header_texts-IsHeadLine headers hs,
)

-- The bytes of the lines.
pub as_bytes-join :
    (lines : List Text) → as_bytes (join crlf lines) ≡ join crlf (map as_bytes lines)
unfolding join as_bytes
as_bytes-join [] = refl
as_bytes-join (s ∷ []) = refl
as_bytes-join (s ∷ t ∷ lines) =
    as_bytes-append s (crlf ++ join crlf (t ∷ lines))
    ∙ ap (λ b. as_bytes s ++ (crlf ++ b)) (as_bytes-join (t ∷ lines))

bytes_nonempty : (s : Text) → is_empty s ≡ false → is_empty (as_bytes s) ≡ false
unfolding as_bytes
bytes_nonempty [] h = cc
bytes_nonempty (c ∷ s) h = ground arith

pub bytes-IsHeadLine :
    (lines : List Text) → All IsHeadLine lines → All IsHeadLine (map as_bytes lines)
bytes-IsHeadLine [] h = tt
bytes-IsHeadLine (s ∷ lines) ((h, k), hs) =
    ((bytes_nonempty s h, plain-IsLine s k), bytes-IsHeadLine lines hs)
