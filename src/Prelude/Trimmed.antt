-- ===== src/Prelude/Trimmed.antt =====
-- What trimming, splitting and stripping give on texts whose shape is known.
use Prim.Native.Nat.{ℕ}
use mathlib.Core.Path.{◌≡◌, refl, ap, ◌∙◌}
use mathlib.Core.Logic.{◌⊎◌, inl, inr}
use mathlib.Core.Bool.{Bool, false}
use mathlib.Core.List.{List, [], ◌∷◌, ◌++◌, reverse, reverse-append, reverse-reverse}
use mathlib.Core.Option.{none, some}
use native.Mathlib.Omega.{arith}
use kelinode_rs.Prelude.Tests.{◌==◌, Bool-cases, if_intro}
use kelinode_rs.Prelude.Lists.{All, last?}
use kelinode_rs.Prelude.Split.{has_char-append}
use kelinode_rs.Prelude.Text.{
  Text, trim, trim_start, trim_end, trim_matches, is_whitespace, strip_prefix, has_char, on_head,
  split,
}
use kelinode_rs.Prelude.Str.{split_once}

-- What does not start with a character that is trimmed stays.
pub trim_start_kept : (p : ℕ → Bool) (c : ℕ) (s : Text) → p c ≡ false → trim_start p (c ∷ s) ≡ c ∷ s
unfolding trim_start
trim_start_kept p c s h = rw h refl

trim_start_ends :
    (p : ℕ → Bool) (s : Text) (c : ℕ)
    → p c ≡ false
    → (t : Text) × (trim_start p (s ++ c ∷ []) ≡ t ++ c ∷ [])
unfolding trim_start
trim_start_ends p [] c h = ([], rw h refl)
trim_start_ends p (d ∷ s) c h = elim (Bool-cases (p d)) [
  | inl trimmed ↦ let (t, e) = trim_start_ends p s c h in (t, rw trimmed e)
  | inr stays ↦ (d ∷ s, rw stays refl)
]

-- A first character that is not trimmed is still the first after the end is trimmed.
pub trim_end_first :
    (p : ℕ → Bool) (c : ℕ) (s : Text) → p c ≡ false → (t : Text) × (trim_end p (c ∷ s) ≡ c ∷ t)
unfolding trim_end
trim_end_first p c s h =
    let (t, e) = trim_start_ends p (reverse s) c h in
    (
      reverse t,
      ap (λ x. reverse (trim_start p x)) (reverse-append (c ∷ []) s)
          ∙ ap reverse e
          ∙ reverse-append t (c ∷ []),
    )

pub strip_prefix-append : (p s : Text) → strip_prefix p (p ++ s) ≡ some s
unfolding strip_prefix
strip_prefix-append [] s = refl
strip_prefix-append (c ∷ p) s = ground (arith, strip_prefix-append p s)

pub split_once_at :
    (c : ℕ) (s t : Text) → has_char c s ≡ false → split_once c (s ++ c ∷ t) ≡ some (s, t)
unfolding split_once
split_once_at c [] t h = ground arith
split_once_at c (d ∷ s) t h = ground (arith, split_once_at c s t)

pub split_once-none : (c : ℕ) (s : Text) → has_char c s ≡ false → split_once c s ≡ none
unfolding split_once
split_once-none c [] h = refl
split_once-none c (d ∷ s) h = ground (arith, split_once-none c s)

-- What is left starts with a character that is not trimmed, if anything is left.
trim_start_shape :
    (p : ℕ → Bool) (s : Text)
    → (trim_start p s ≡ []) ⊎ ((c : ℕ) × (t : Text) × (trim_start p s ≡ c ∷ t) × (p c ≡ false))
unfolding trim_start
trim_start_shape p [] = inl refl
trim_start_shape p (c ∷ s) = elim (Bool-cases (p c)) [
  | inl trimmed ↦ rw trimmed (trim_start_shape p s)
  | inr stays ↦ rw stays (inr (c, s, refl, stays))
]

trim_start_again : (p : ℕ → Bool) (s : Text) → trim_start p (trim_start p s) ≡ trim_start p s
trim_start_again p s = elim (trim_start_shape p s) [
  | inl e ↦ rw e (unfold trim_start in refl)
  | inr (c, t, e, stays) ↦ rw e (trim_start_kept p c t stays)
]

trim_end_again : (p : ℕ → Bool) (s : Text) → trim_end p (trim_end p s) ≡ trim_end p s
unfolding trim_end
trim_end_again p s =
    ap (λ x. reverse (trim_start p x)) (reverse-reverse (trim_start p (reverse s)))
    ∙ ap reverse (trim_start_again p (reverse s))

pub trim_matches_again :
    (p : ℕ → Bool) (s : Text) → trim_matches p (trim_matches p s) ≡ trim_matches p s
unfolding trim_matches
trim_matches_again p s = elim (trim_start_shape p s) [
  | inl e ↦ rw e (unfold trim_end trim_start in refl)
  | inr (c, t, e, stays) ↦
      let (u, f) = trim_end_first p c t stays in
      let g : trim_start p (trim_end p (trim_start p s)) ≡ trim_end p (trim_start p s) =
        rw (e, f) (trim_start_kept p c u stays) in
      ap (trim_end p) g ∙ trim_end_again p (trim_start p s)
]

pub trim_again : (s : Text) → trim (trim s) ≡ trim s
unfolding trim
trim_again s = trim_matches_again is_whitespace s

-- Trimming brings in no character.
module _ (c : ℕ) where
  trim_start-without :
      (p : ℕ → Bool) (s : Text) → has_char c s ≡ false → has_char c (trim_start p s) ≡ false
  unfolding trim_start
  trim_start-without p [] h = refl
  trim_start-without p (d ∷ s) h = ground (arith, trim_start-without p s)

  reverse-without : (s : Text) → has_char c s ≡ false → has_char c (reverse s) ≡ false
  reverse-without [] h = refl
  reverse-without (d ∷ s) h =
      ap (has_char c) (reverse-append (d ∷ []) s)
      ∙ has_char-append c (reverse s) (d ∷ []) (reverse-without s (ground arith)) (ground arith)

  pub trim-without : (s : Text) → has_char c s ≡ false → has_char c (trim s) ≡ false
  unfolding trim trim_matches trim_end
  trim-without s h =
      reverse-without (trim_start is_whitespace (reverse (trim_start is_whitespace s))) (
        trim_start-without is_whitespace (reverse (trim_start is_whitespace s))
          (reverse-without (trim_start is_whitespace s) (trim_start-without is_whitespace s h)))

  on_head-without :
      (d : ℕ) (parts : List Text)
      → (d == c) ≡ false
      → All (λ s. has_char c s ≡ false) parts
      → All (λ s. has_char c s ≡ false) (on_head d parts)
  on_head-without d [] e h = (ground arith, tt)
  on_head-without d (s ∷ parts) e (h, hs) = (ground arith, hs)

  pub split-without : (s : Text) → All (λ part. has_char c part ≡ false) (split c s)
  unfolding split
  split-without [] = (refl, tt)
  split-without (d ∷ s) =
      let rest = split-without s in
      if_intro (λ parts. All (λ part. has_char c part ≡ false) parts) (d == c) (λ _. (refl, rest))
        (λ e. on_head-without d (split c s) e rest)

  pub last?-without :
      (parts : List Text) (s : Text)
      → All (λ part. has_char c part ≡ false) parts
      → last? parts ≡ some s
      → has_char c s ≡ false
  last?-without [] s h e = cc
  last?-without (t ∷ []) s (h, _) e = ground (arith)
  last?-without (t ∷ u ∷ parts) s (_, h) e = last?-without (u ∷ parts) s h e
