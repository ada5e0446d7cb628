-- ===== src/SubscriptionProxy/Http/Reader/Loops.antt =====
-- The loops of src/subscription_proxy.rs over the reads of a stream: what they return is the start of
-- the stream.
use kelinode_rs.Prelude.{
  ℕ, zero, suc, ◌-◌, ◌≤◌, true, false, [], ◌∷◌, ◌++◌, ltb, ◌==◌, is_empty, take, drop, length,
  length-append, length-take, append_assoc, take-append-drop, leb, append-nil, ◌≡◌, refl, sym, ap,
  ◌∙◌, arith, Bool-cases, inl, inr, if_intro,
}
use mathlib.Core.Path.{subst}
use kelinode_rs.Prelude.Text.{Text}
use kelinode_rs.Prelude.Utf8.{Bytes}
use kelinode_rs.Prelude.Result.{Result, ok, err, ◌>>=◌}
use kelinode_rs.SubscriptionProxy.Http.{http_header_end}
use kelinode_rs.SubscriptionProxy.Http.Reader.{
  Reads, is_found, read_subscription_proxy_http_request_head, read_exact,
}

-- The bytes that the reads return before the first error.
abbrev pub stream : Reads → Bytes
stream [] = []
stream (ok chunk ∷ reads) = chunk ++ stream reads
stream (err e ∷ reads) = []

pub take-append_short : (n : ℕ) (s t : Bytes) → n ≤ length s → take n (s ++ t) ≡ take n s
take-append_short zero s t h = refl
take-append_short (suc n) [] t h = absurd (omega arith)
take-append_short (suc n) (b ∷ s) t h = ap (λ u. b ∷ u) (take-append_short n s t (omega arith))

pub take-append_length : (s t : Bytes) → take (length s) (s ++ t) ≡ s
take-append_length [] t = refl
take-append_length (b ∷ s) t = ap (λ u. b ∷ u) (take-append_length s t)

-- The loop over the head, by what it returns.
pub record IsHead (limit : ℕ) (all raw : Bytes) (reads : Reads) : Type 0 where
  pub cut : raw ++ stream reads ≡ all
  pub small : length raw ≤ limit

ok_parts :
    {A : Type 0} (a b : A) (r s : Reads)
    → ◌≡◌ {A = Result Text (A × Reads)} (ok (a, r)) (ok (b, s))
    → (a ≡ b) × (r ≡ s)
ok_parts a b r s h = (ground arith, ground arith)

not_over :
    (limit : ℕ) (more raw : Bytes)
    → more ≡ raw
    → ltb limit (length more) ≡ false
    → length raw ≤ limit
not_over limit more raw same h =
    let e : length more ≡ length raw = ap length same in
    let small : length more ≤ limit = ground arith in omega arith

pub read_subscription_proxy_http_request_head-IsHead :
    (limit : ℕ) (output : Bytes) (reads rest : Reads) (raw : Bytes)
    → read_subscription_proxy_http_request_head limit output reads ≡ ok (raw, rest)
    → IsHead limit (output ++ stream reads) raw rest
unfolding read_subscription_proxy_http_request_head
read_subscription_proxy_http_request_head-IsHead limit output [] rest raw = λ h. cc
read_subscription_proxy_http_request_head-IsHead limit output (err e ∷ reads) rest raw = λ h. cc
read_subscription_proxy_http_request_head-IsHead limit output (ok chunk ∷ reads) rest raw =
    let more = output ++ chunk in
    let Q = λ (r : Result Text (Bytes × Reads)).
      r ≡ ok (raw, rest) → IsHead limit (output ++ (chunk ++ stream reads)) raw rest in
    let later = read_subscription_proxy_http_request_head-IsHead limit more reads rest raw in
    if_intro Q (is_empty chunk) (λ _ h. cc)
      (λ _.
        if_intro Q (ltb limit (length more)) (λ _ h. cc)
          (λ fits.
            if_intro Q (is_found (http_header_end more))
              (λ _ h.
                let (same, left) = ok_parts more raw reads rest h in
                record {
                  cut =
                      ap (λ s. s ++ stream rest) (sym same)
                      ∙ ap (λ x. more ++ stream x) (sym left)
                      ∙ append_assoc output chunk (stream reads);
                  small = not_over limit more raw same fits;
                })
              (λ _ h.
                let head = later h in
                record {
                  cut = head.cut ∙ append_assoc output chunk (stream reads);
                  small = head.small;
                })))

pub take_whole : (n : ℕ) (s : Bytes) → length s ≤ n → take n s ≡ s
take_whole zero [] h = refl
take_whole zero (b ∷ s) h = absurd (omega arith)
take_whole (suc n) [] h = refl
take_whole (suc n) (b ∷ s) h = ap (λ t. b ∷ t) (take_whole n s (omega arith))

no_length : (s : Bytes) → length s ≡ 0 → s ≡ []
no_length [] h = refl
no_length (b ∷ s) h = absurd (omega arith)

-- The bytes that `read_exact` returns are the first of the stream.
abbrev pub IsExact : ℕ → Reads → Bytes → Type 0
IsExact n reads body = (length body ≡ n) × ((t : Bytes) × (stream reads ≡ body ++ t))

bind_take :
    (s : Bytes) (m : Result Text Bytes) (body : Bytes)
    → (m >>= λ b. ok (s ++ b)) ≡ ok body
    → (b : Bytes) × (m ≡ ok b) × (s ++ b ≡ body)
bind_take s (ok b) body h = (b, refl, ground arith)
bind_take s (err e) body h = cc

chunk-IsExact :
    (n : ℕ) (chunk b : Bytes) (reads : Reads)
    → IsExact (n - length chunk) reads b
    → IsExact n (ok chunk ∷ reads) (take n chunk ++ b)
chunk-IsExact n chunk b reads (l, (t, e)) = (
  omega (arith, length-append (take n chunk) b, length-take n chunk),
  elim (Bool-cases (leb (length chunk) n)) [
    | inl fits ↦ (
      t,
      ap (λ s. chunk ++ s) e
          ∙ sym (append_assoc chunk b t)
          ∙ ap (λ s. (s ++ b) ++ t) (sym (take_whole n chunk (ground arith))),
    )
    | inr over ↦ (
      drop n chunk ++ stream reads,
      ap (λ s. s ++ stream reads) (sym (take-append-drop n chunk))
          ∙ append_assoc (take n chunk) (drop n chunk) (stream reads)
          ∙ ap (λ s. s ++ (drop n chunk ++ stream reads))
              (sym (append-nil (take n chunk))
                ∙ ap (λ s. take n chunk ++ s) (sym (no_length b (ground arith)))),
    )
  ],
)

zero-IsExact :
    (n : ℕ) (reads : Reads) (body : Bytes)
    → (n == 0) ≡ true
    → ◌≡◌ {A = Result Text Bytes} (ok []) (ok body)
    → IsExact n reads body
zero-IsExact n reads body z h =
    let e : [] ≡ body = ground arith in
    (ap length (sym e) ∙ ground arith, (stream reads, ap (λ s. s ++ stream reads) e))

pub read_exact-IsExact :
    (n : ℕ) (reads : Reads) (body : Bytes) → read_exact n reads ≡ ok body → IsExact n reads body
unfolding read_exact
read_exact-IsExact n [] body =
    if_intro (λ r. r ≡ ok body → IsExact n [] body) (n == 0) (zero-IsExact n [] body) (λ _ h. cc)
read_exact-IsExact n (err e ∷ reads) body =
    if_intro (λ r. r ≡ ok body → IsExact n (err e ∷ reads) body) (n == 0)
      (zero-IsExact n (err e ∷ reads) body) (λ _ h. cc)
read_exact-IsExact n (ok chunk ∷ reads) body =
    let later = read_exact-IsExact (n - length chunk) reads in
    let Q = λ (r : Result Text Bytes). r ≡ ok body → IsExact n (ok chunk ∷ reads) body in
    if_intro Q (n == 0) (zero-IsExact n (ok chunk ∷ reads) body) (λ _.
      if_intro Q (is_empty chunk) (λ _ h. cc)
        (λ _ h.
          let (b, e, same) =
            bind_take (take n chunk) (read_exact (n - length chunk) reads) body h in
          subst (IsExact n (ok chunk ∷ reads)) same (chunk-IsExact n chunk b reads (later b e))))
