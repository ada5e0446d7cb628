-- ===== src/Prelude/Words.antt =====
-- Words that are joined by a blank are found again, and trimming leaves them.
use mathlib.Core.Path.{◌≡◌, refl, sym, ap, subst, ◌∙◌}
use mathlib.Core.Bool.{false, not}
use mathlib.Core.List.{List, [], ◌∷◌, ◌++◌, reverse, reverse-append, reverse-reverse}
use kelinode_rs.Prelude.Lists.{All, All-append, is_empty, keep}
use kelinode_rs.Prelude.Text.{Text, trim, trim_start, trim_end, trim_matches, is_whitespace, join}
use kelinode_rs.Prelude.Str.{pieces, split_whitespace}

abbrev pub IsPlain : Text → Type 0
IsPlain s = All (λ c. is_whitespace c ≡ false) s

abbrev pub IsWord : Text → Type 0
IsWord s = (is_empty s ≡ false) × IsPlain s

start_plain : (s : Text) → IsPlain s → trim_start is_whitespace s ≡ s
unfolding trim_start
start_plain [] h = refl
start_plain (c ∷ s) (h, hs) = rw h refl

reverse-IsPlain : (s : Text) → IsPlain s → IsPlain (reverse s)
reverse-IsPlain [] h = tt
reverse-IsPlain (c ∷ s) (h, hs) =
    subst IsPlain (sym (reverse-append (c ∷ []) s)) (
      All-append (λ c. is_whitespace c ≡ false) (reverse s) (c ∷ []) (reverse-IsPlain s hs) (h, tt))

pub trim_plain : (s : Text) → IsPlain s → trim s ≡ s
unfolding trim trim_matches trim_end
trim_plain s h =
    ap (λ t. reverse (trim_start is_whitespace (reverse t))) (start_plain s h)
    ∙ ap reverse (start_plain (reverse s) (reverse-IsPlain s h))
    ∙ reverse-reverse s

pub trim_blank : (s : Text) → trim (b' ' ∷ s) ≡ trim s
unfolding trim trim_matches trim_start is_whitespace
trim_blank s = refl

pieces_of_word : (s : Text) → IsPlain s → pieces is_whitespace s ≡ s ∷ []
pieces_of_word [] h = refl
pieces_of_word (c ∷ s) (h, hs) = rw (h, pieces_of_word s hs) refl

pieces_at_blank :
    (s t : Text) → IsPlain s → pieces is_whitespace (s ++ b' ' ∷ t) ≡ s ∷ pieces is_whitespace t
unfolding is_whitespace
pieces_at_blank [] t h = refl
pieces_at_blank (c ∷ s) t (h, hs) = rw (h, pieces_at_blank s t hs) refl

pieces-join :
    (s : Text) (words : List Text)
    → All IsWord (s ∷ words)
    → pieces is_whitespace (join (b' ' ∷ []) (s ∷ words)) ≡ s ∷ words
unfolding join
pieces-join s [] (h, _) = pieces_of_word s h.1
pieces-join s (t ∷ words) (h, hs) =
    pieces_at_blank s (join (b' ' ∷ []) (t ∷ words)) h.1
    ∙ ap (λ ws. s ∷ ws) (pieces-join t words hs)

keep_words : (words : List Text) → All IsWord words → keep (λ s. not (is_empty s)) words ≡ words
keep_words [] h = refl
keep_words (s ∷ words) (h, hs) = rw (h.0, keep_words words hs) refl

pub split_whitespace-join :
    (s : Text) (words : List Text)
    → All IsWord (s ∷ words)
    → split_whitespace (join (b' ' ∷ []) (s ∷ words)) ≡ s ∷ words
unfolding split_whitespace
split_whitespace-join s words h =
    ap (keep (λ s. not (is_empty s))) (pieces-join s words h) ∙ keep_words (s ∷ words) h
