-- ===== src/SubscriptionProxy/Http/Printed/Length.antt =====
-- What src/subscription_proxy.rs takes to be the length of the body of a request that is written.
use kelinode_rs.Prelude.{
  ℕ, ◌≤◌, Bool, true, false, ◌||◌, Option, some, none, List, [], ◌∷◌, if◌then◌else◌, any, length,
  All, ◌≡◌, refl, sym, ap, ◌∙◌, arith, Bool-cases, inl, inr, ◌⊎◌, if_intro,
}
use kelinode_rs.Prelude.Text.{Text, text, trim}
use kelinode_rs.Prelude.Str.{eq_ignore_ascii_case}
use kelinode_rs.Prelude.Decimal.{decimal, parse_usize, u64_max}
use kelinode_rs.Prelude.Decimal.Laws.{parse_usize-decimal}
use kelinode_rs.Prelude.Utf8.Laws.{from_utf8-as_bytes}
use kelinode_rs.Prelude.Words.{trim_plain}
use kelinode_rs.Prelude.Result.{ok}
use kelinode_rs.SubscriptionProxy.{Headers, SubscriptionProxyInboundRequest}
use kelinode_rs.SubscriptionProxy.Http.{
  request_content_length, content_length_of, disagrees, is_chunked, request_has_chunked_body,
}
use kelinode_rs.SubscriptionProxy.Http.Reader.{is_chunked_only}
use kelinode_rs.SubscriptionProxy.Http.Reader.Framed.{body_length}
use kelinode_rs.SubscriptionProxy.Response.{header_line}
use kelinode_rs.SubscriptionProxy.Http.Printed.{
  header_texts, IsField, head_bytes, head_text, IsWritable,
}
use kelinode_rs.SubscriptionProxy.Http.Printed.Lines.{
  header_line-split, after_colon, after_colon-trim,
}
use kelinode_rs.SubscriptionProxy.Http.Printed.Parsed.{head_text-decoded, head_text-split}

-- A header that is named so, letter case aside.
abbrev pub is_named : Text → Text × Text → Bool
is_named name (key, value) = eq_ignore_ascii_case key name

-- A header that says nothing of the length, or tells it.
abbrev pub Tells : ℕ → Text × Text → Type 0
Tells n (key, value) = (is_named (text "content-length") (key, value) ≡ false) ⊎ (value ≡ decimal n)

-- The headers tell the length of the body, or none of them tells a length or that there are chunks
-- and there is no body.
pub record TellsLength (r : SubscriptionProxyInboundRequest) : Type 0 where
  pub lengths : All (Tells (length r.body)) r.headers
  pub told :
      (any (is_named (text "content-length")) r.headers ≡ true)
      ⊎ ((any (is_named (text "transfer-encoding")) r.headers ≡ false) × (r.body ≡ []))

abbrev told_length : Bool → ℕ → Option ℕ → Option ℕ
told_length named n found = if named then some n else found

module _ (n : ℕ) (bound : n ≤ u64_max) where
  length_line :
      (key value : Text) (found : Option ℕ) (lines : List Text)
      → IsField (key, value)
      → Tells n (key, value)
      → disagrees found n ≡ false
      → content_length_of found (header_line key value ∷ lines)
        ≡ content_length_of
            (told_length (is_named (text "content-length") (key, value)) n found)
            lines
  unfolding content_length_of
  length_line key value found lines (word, no_colon, trimmed, _) tells agrees =
      let halves = header_line-split key value no_colon in
      let same = trim_plain key word.1 in
      elim (Bool-cases (is_named (text "content-length") (key, value))) [
        | inr other ↦ rw (halves, content_length_of, same, other) refl
        | inl named ↦ elim tells [
          | inl other ↦ cc
          | inr e ↦
              (let read : parse_usize (trim (after_colon value)) ≡ some n =
                  ap parse_usize (after_colon-trim value trimmed ∙ e)
                  ∙ parse_usize-decimal n bound in
                rw (halves, content_length_of, same, named, read, agrees) refl)
        ]
      ]

  told_agrees :
      (named : Bool) (found : Option ℕ)
      → disagrees found n ≡ false
      → disagrees (told_length named n found) n ≡ false
  told_agrees true found h = ground arith
  told_agrees false found h = h

  told_again :
      (first rest : Bool) (found : Option ℕ)
      → told_length rest n (told_length first n found) ≡ told_length (first || rest) n found
  told_again true true found = refl
  told_again true false found = refl
  told_again false rest found = refl

  content_length_of-header_texts :
      (headers : Headers) (found : Option ℕ)
      → All IsField headers
      → All (Tells n) headers
      → disagrees found n ≡ false
      → content_length_of found (header_texts headers)
        ≡ ok (told_length (any (is_named (text "content-length")) headers) n found)
  unfolding content_length_of
  content_length_of-header_texts [] found f t agrees = refl
  content_length_of-header_texts ((key, value) ∷ headers) found (f, fs) (t, ts) agrees =
      let named = is_named (text "content-length") (key, value) in
      length_line key value found (header_texts headers) f t agrees
      ∙ content_length_of-header_texts headers (told_length named n found) fs ts
          (told_agrees named found agrees)
      ∙ ap ok (told_again named (any (is_named (text "content-length")) headers) found)

not_chunked :
    (headers : Headers)
    → All IsField headers
    → any (is_named (text "transfer-encoding")) headers ≡ false
    → any is_chunked (header_texts headers) ≡ false
not_chunked [] f h = refl
not_chunked ((key, value) ∷ headers) ((word, no_colon, _, _), fs) h =
    let other : is_named (text "transfer-encoding") (key, value) ≡ false = ground (arith, h) in
    rw (header_line-split key value no_colon, is_chunked, trim_plain key word.1, other)
      (not_chunked headers fs (ground (arith, h)))

module _ (r : SubscriptionProxyInboundRequest) (w : IsWritable r) (t : TellsLength r)
    (bound : length r.body ≤ u64_max) where
  abbrev pub length_of : Option ℕ
  length_of = told_length (any (is_named (text "content-length")) r.headers) (length r.body) none

  pub request_content_length-printed : request_content_length (head_bytes r) ≡ ok length_of
  unfolding request_content_length
  request_content_length-printed =
      rw (head_text-decoded r w, head_text-split r w)
        (content_length_of-header_texts (length r.body) bound r.headers none w.fields t.lengths
          refl)

  pub body_length-printed : body_length length_of ≡ length r.body
  body_length-printed = elim t.told [
    | inl named ↦ rw named refl
    | inr (_, none_left) ↦
        if_intro (λ o. body_length o ≡ length r.body)
          (any (is_named (text "content-length")) r.headers) (λ _. refl)
          (λ _. sym (ap length none_left))
  ]

  pub unchunked-printed : is_chunked_only length_of (head_bytes r) ≡ false
  unfolding request_has_chunked_body
  unchunked-printed = elim t.told [
    | inl named ↦ rw named refl
    | inr (plain, _) ↦
        (let chunks : request_has_chunked_body (head_bytes r) ≡ false =
            rw
              (
                from_utf8-as_bytes (head_text r) w.string,
                request_has_chunked_body,
                head_text-split r w,
              )
              (not_chunked r.headers w.fields plain) in
          if_intro (λ o. is_chunked_only o (head_bytes r) ≡ false)
            (any (is_named (text "content-length")) r.headers) (λ _. refl) (λ _. chunks))
  ]
