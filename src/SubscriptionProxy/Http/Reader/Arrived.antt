-- ===== src/SubscriptionProxy/Http/Reader/Arrived.antt =====
-- The reads of src/subscription_proxy.rs that bring a request, and how its loops get through them.
use kelinode_rs.Prelude.{
  ℕ, ◌+◌, ◌-◌, ◌≤◌, ◌<◌, true, false, not, ◌&&◌, ◌||◌, ◌⊎◌, leb, Option, none, some, [], ◌∷◌, ◌++◌,
  ltb, ◌==◌, is_empty, take, length, length-append, append_assoc, append-nil, ◌≡◌, refl, sym, ap,
  ◌∙◌, arith, Bool-cases, inl, inr, if_intro,
}
use mathlib.Core.Path.{subst}
use kelinode_rs.Prelude.Text.{Text}
use kelinode_rs.Prelude.Utf8.{Bytes}
use kelinode_rs.Prelude.Result.{Result, ok, err, is_ok, ◌>>=◌}
use kelinode_rs.SubscriptionProxy.Http.{http_header_end}
use kelinode_rs.SubscriptionProxy.Http.Reader.{
  Reads, is_found, read_subscription_proxy_http_request_head, read_exact, body_error, read_body,
}
use kelinode_rs.SubscriptionProxy.Http.Reader.Ends.{header_end-early}
use kelinode_rs.SubscriptionProxy.Http.Reader.Loops.{stream}
use kelinode_rs.SubscriptionProxy.Http.Reader.Framed.{body_length}

-- Each read that begins before the next `left` bytes are there returns some bytes, and no more than
-- the buffer of the head holds if it begins before the next `head` bytes are there.
abbrev pub AreRead : ℕ → ℕ → Reads → Type 0
AreRead head left [] = Unit {0}
AreRead head left (ok chunk ∷ reads) =
    ((left == 0 || (not (is_empty chunk) && (head == 0 || leb (length chunk) 1024))) ≡ true)
    × AreRead (head - length chunk) (left - length chunk) reads
AreRead head left (err e ∷ reads) = (left == 0) ≡ true

no_end : (o : Option ℕ) → is_found o ≡ false → o ≡ none
no_end none h = refl
no_end (some n) h = cc

pub record HeadRead (limit size : ℕ) (output : Bytes) (reads : Reads) : Type 0 where
  pub raw : Bytes
  pub rest : Reads
  pub head : ℕ
  pub found : read_subscription_proxy_http_request_head limit output reads ≡ ok (raw, rest)
  pub ends : is_found (http_header_end raw) ≡ true
  pub more : AreRead head (size - length raw) rest

-- The head ends so early that no read goes past the limit on the way to it, or all that there is
-- keeps the limit.
abbrev pub Keeps : ℕ → ℕ → Bytes → Type 0
Keeps limit place all = (length all ≤ limit) ⊎ (place + 3 + 1024 ≤ limit)

unended-short :
    (output t : Bytes) (place : ℕ)
    → http_header_end output ≡ none
    → http_header_end (output ++ t) ≡ some place
    → length output < place + 4
unended-short output t place unended ended = elim (Bool-cases (leb (place + 4) (length output))) [
  | inl there ↦ cc (sym unended ∙ header_end-early output t place (ground arith) ended)
  | inr short ↦ ground arith
]

keeps_limit :
    (limit place have new all : ℕ)
    → have < place + 4
    → have + new ≤ all
    → new ≤ 1024
    → (all ≤ limit) ⊎ (place + 3 + 1024 ≤ limit)
    → ltb limit (have + new) ≡ false
keeps_limit limit place have new all short within fits (inl h) = ground arith
keeps_limit limit place have new all short within fits (inr h) = ground arith

pub head_read :
    (limit place size : ℕ) (output : Bytes) (reads : Reads)
    → AreRead (place + 4 - length output) (size - length output) reads
    → place + 4 ≤ size
    → http_header_end output ≡ none
    → http_header_end (output ++ stream reads) ≡ some place
    → Keeps limit place (output ++ stream reads)
    → HeadRead limit size output reads
unfolding read_subscription_proxy_http_request_head
head_read limit place size output [] r within unended ended small =
    cc (sym unended ∙ ap http_header_end (sym (append-nil output)) ∙ ended)
head_read limit place size output (err e ∷ reads) r within unended ended small =
    absurd (ground (arith, unended-short output [] place unended ended))
head_read limit place size output (ok chunk ∷ reads) (read, r) within unended ended small =
    let more = output ++ chunk in
    let all = output ++ (chunk ++ stream reads) in
    let same = append_assoc output chunk (stream reads) in
    let long = length-append output chunk in
    let short = unended-short output (chunk ++ stream reads) place unended ended in
    let full : is_empty chunk ≡ false = ground (arith, read, short) in
    let bound : length chunk ≤ 1024 = ground (arith, read, short) in
    let fits : ltb limit (length more) ≡ false =
      ap (ltb limit) long
      ∙ keeps_limit limit place (length output) (length chunk) (length all) short
          (omega (arith, long, ap length same, length-append more (stream reads))) bound small in
    let to_head : place + 4 - length more ≡ place + 4 - length output - length chunk =
      omega (arith, long) in
    let to_size : size - length more ≡ size - length output - length chunk = omega (arith, long) in
    let left : AreRead (place + 4 - length more) (size - length more) reads =
      rw (to_head, to_size) r in
    elim (Bool-cases (is_found (http_header_end more))) [
      | inl here ↦ record {
        raw = more;
        rest = reads;
        head = place + 4 - length more;
        found = rw (full, fits, here) refl;
        ends = here;
        more = left;
      }
      | inr later ↦
          (let h =
              head_read limit place size more reads left within
                (no_end (http_header_end more) later) (ap http_header_end same ∙ ended)
                (subst (Keeps limit place) (sym same) small) in
            record {
              raw = h.raw;
              rest = h.rest;
              head = h.head;
              found = rw (full, fits, later) h.found;
              ends = h.ends;
              more = h.more;
            })
    ]

abbrev pub IsOk : Result Text Bytes → Type 0
IsOk m = is_ok m ≡ true

then_ok :
    (r : Result Text Bytes) (k : Bytes → Bytes)
    → is_ok r ≡ true
    → is_ok (r >>= λ b. ok (k b)) ≡ true
then_ok (ok b) k h = refl
then_ok (err e) k h = cc

exact_read :
    (head left remaining : ℕ) (reads : Reads)
    → AreRead head left reads
    → remaining ≤ left
    → remaining ≤ length (stream reads)
    → is_ok (read_exact remaining reads) ≡ true
unfolding read_exact
exact_read head left remaining [] r asked enough =
    let h : (remaining == 0) ≡ true = ground arith in rw h refl
exact_read head left remaining (err e ∷ reads) r asked enough =
    let h : (remaining == 0) ≡ true = ground arith in rw h refl
exact_read head left remaining (ok chunk ∷ reads) (read, r) asked enough =
    let later =
      then_ok (read_exact (remaining - length chunk) reads) (λ b. take remaining chunk ++ b)
        (exact_read (head - length chunk) (left - length chunk) (remaining - length chunk) reads r
          (omega arith) (omega (arith, length-append chunk (stream reads)))) in
    elim (Bool-cases (remaining == 0)) [
      | inl nothing ↦ rw nothing refl
      | inr something ↦
          (let full : is_empty chunk ≡ false = ground (arith, read, something) in
            rw (something, full) later)
    ]

body_error_ok : (r : Result Text Bytes) → is_ok r ≡ true → is_ok (body_error r) ≡ true
body_error_ok (ok b) h = refl
body_error_ok (err e) h = cc

pub body_read :
    (max_body head start : ℕ) (raw : Bytes) (reads : Reads) (n : Option ℕ)
    → AreRead head (start + body_length n - length raw) reads
    → start ≤ length raw
    → body_length n ≤ max_body
    → start + body_length n ≤ length raw + length (stream reads)
    → is_ok (read_body max_body start raw reads n) ≡ true
unfolding read_body
body_read max_body head start raw reads none r within bound enough = refl
body_read max_body head start raw reads (some n) r within bound enough =
    let already = length raw - start in
    let small : ltb max_body n ≡ false = ground arith in
    rw small (
      if_intro IsOk (ltb n already) (λ _. refl)
        (λ _.
          if_intro IsOk ((n - already) == 0) (λ _. refl)
            (λ _.
              then_ok (body_error (read_exact (n - already) reads)) (λ b. raw ++ b)
                (body_error_ok (read_exact (n - already) reads) (
                  exact_read head (start + n - length raw) (n - already) reads r (omega arith)
                    (omega arith))))))
