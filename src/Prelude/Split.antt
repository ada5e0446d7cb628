-- ===== src/Prelude/Split.antt =====
-- Splitting at a character undoes joining by it.
use mathlib.Core.Path.{◌≡◌, refl, ap, ◌∙◌}
use mathlib.Core.Bool.{false}
use mathlib.Core.List.{List, [], ◌∷◌, ◌++◌}
use native.Mathlib.Omega.{arith}
use Prim.Native.Nat.{ℕ}
use kelinode_rs.Prelude.Lists.{All}
use kelinode_rs.Prelude.Text.{Text, has_char, split, join}

pub split_without : (c : ℕ) (s : Text) → has_char c s ≡ false → split c s ≡ s ∷ []
unfolding split
split_without c [] h = refl
split_without c (d ∷ s) h = ground (arith, split_without c s)

pub split_at : (c : ℕ) (s t : Text) → has_char c s ≡ false → split c (s ++ c ∷ t) ≡ s ∷ split c t
unfolding split
split_at c [] t h = ground arith
split_at c (d ∷ s) t h = ground (arith, split_at c s t)

abbrev pub Without : ℕ → List Text → Type 0
Without c parts = All (λ s. has_char c s ≡ false) parts

pub split-join :
    (c : ℕ) (s : Text) (parts : List Text)
    → Without c (s ∷ parts)
    → split c (join (c ∷ []) (s ∷ parts)) ≡ s ∷ parts
unfolding join
split-join c s [] (h, _) = split_without c s h
split-join c s (t ∷ parts) (h, hs) =
    split_at c s (join (c ∷ []) (t ∷ parts)) h ∙ ap (λ ps. s ∷ ps) (split-join c t parts hs)

pub has_char-append :
    (c : ℕ) (s t : Text) → has_char c s ≡ false → has_char c t ≡ false → has_char c (s ++ t) ≡ false
has_char-append c [] t h k = k
has_char-append c (d ∷ s) t h k = ground (arith, has_char-append c s t)
