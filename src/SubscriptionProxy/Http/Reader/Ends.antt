-- ===== src/SubscriptionProxy/Http/Reader/Ends.antt =====
-- Where the head of a request ends, for src/subscription_proxy.rs.
use kelinode_rs.Prelude.{
  ℕ, suc, ◌+◌, ◌≤◌, true, false, ◌&&◌, Option, none, some, [], ◌∷◌, ◌++◌, ◌==◌, length, ◌≡◌, refl,
  sym, ap, ◌∙◌, arith, Bool-cases, inl, inr,
}
use kelinode_rs.Prelude.Text.{starts_with}
use kelinode_rs.Prelude.Utf8.{Bytes}
use kelinode_rs.SubscriptionProxy.Http.{blank_line, next_place, http_header_end}

starts_with-append :
    (p s t : Bytes) → length p ≤ length s → starts_with p (s ++ t) ≡ starts_with p s
starts_with-append [] s t h = refl
starts_with-append (a ∷ p) [] t h = absurd (omega arith)
starts_with-append (a ∷ p) (b ∷ s) t h =
    ap (λ x. a == b && x) (starts_with-append p s t (omega arith))

starts_with-le : (p s : Bytes) → starts_with p s ≡ true → length p ≤ length s
starts_with-le [] s h = omega arith
starts_with-le (a ∷ p) [] h = cc
starts_with-le (a ∷ p) (b ∷ s) h = ground (arith, starts_with-le p s)

end_here :
    (b : ℕ) (s : Bytes) → starts_with blank_line (b ∷ s) ≡ true → http_header_end (b ∷ s) ≡ some 0
unfolding http_header_end
end_here b s h = rw h refl

end_later :
    (b : ℕ) (s : Bytes)
    → starts_with blank_line (b ∷ s) ≡ false
    → http_header_end (b ∷ s) ≡ next_place (http_header_end s)
unfolding http_header_end
end_later b s h = rw h refl

end_of_nothing : http_header_end [] ≡ none
unfolding http_header_end
end_of_nothing = refl

next_place-some :
    (o : Option ℕ) (n : ℕ) → next_place o ≡ some n → (k : ℕ) × (o ≡ some k) × (n ≡ suc k)
next_place-some none n h = cc
next_place-some (some k) n h = (k, refl, ground (arith))

-- The end of the head lies within the bytes, and stays where it is when more bytes come.
pub header_end-within : (s : Bytes) (n : ℕ) → http_header_end s ≡ some n → n + 4 ≤ length s
header_end-within [] n h = cc (end_of_nothing)
header_end-within (b ∷ s) n h = elim (Bool-cases (starts_with blank_line (b ∷ s))) [
  | inl here ↦
      let zero_place : n ≡ 0 = ground (arith, end_here b s here) in
      omega (arith, starts_with-le blank_line (b ∷ s) here)
  | inr later ↦
      let (k, e, next) = next_place-some (http_header_end s) n (sym (end_later b s later) ∙ h) in
      omega (arith, header_end-within s k e)
]

pub header_end-stays :
    (s t : Bytes) (n : ℕ) → http_header_end s ≡ some n → http_header_end (s ++ t) ≡ some n
header_end-stays [] t n h = cc (end_of_nothing)
header_end-stays (b ∷ s) t n h =
    let enough = header_end-within (b ∷ s) n h in
    let same = starts_with-append blank_line (b ∷ s) t (omega arith) in
    elim (Bool-cases (starts_with blank_line (b ∷ s))) [
      | inl here ↦ end_here b (s ++ t) (same ∙ here) ∙ sym (end_here b s here) ∙ h
      | inr later ↦
          let (k, e, next) =
            next_place-some (http_header_end s) n (sym (end_later b s later) ∙ h) in
          end_later b (s ++ t) (same ∙ later)
          ∙ ap next_place (header_end-stays s t k e)
          ∙ ap some (sym next)
    ]

-- The end is found once the bytes up to it are there.
pub header_end-early :
    (s t : Bytes) (n : ℕ)
    → n + 4 ≤ length s
    → http_header_end (s ++ t) ≡ some n
    → http_header_end s ≡ some n
header_end-early [] t n enough h = absurd (omega arith)
header_end-early (b ∷ s) t n enough h =
    let same = starts_with-append blank_line (b ∷ s) t (omega arith) in
    elim (Bool-cases (starts_with blank_line (b ∷ s))) [
      | inl here ↦ end_here b s here ∙ sym (end_here b (s ++ t) (same ∙ here)) ∙ h
      | inr later ↦
          let (k, e, next) =
            next_place-some (http_header_end (s ++ t)) n
              (sym (end_later b (s ++ t) (same ∙ later)) ∙ h) in
          end_later b s later
          ∙ ap next_place (header_end-early s t k (omega arith) e)
          ∙ ap some (sym next)
    ]
