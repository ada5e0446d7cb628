-- ===== src/Upgrade/Quoting.antt =====
-- What a POSIX shell reads where src/upgrade.rs quotes a value: the reader below is the shell's
-- rule for a word of quoted parts, apart from the code that quotes.
use kelinode_rs.Prelude.{
  ℕ, Bool, ◌||◌, Option, none, some, [], ◌∷◌, ◌++◌, ◌==◌, if◌then◌else◌, ◌≡◌, refl, sym, ==_iff, ap,
  ◌∙◌, Bool-cases, inl, inr,
}
use kelinode_rs.Prelude.Text.{Text}
use kelinode_rs.Upgrade.{quote_body, shell_quote}

-- Outside quotes, between `'`, and between `"`.
pub data Mode : Type 0 where
  bare single double : Mode

abbrev then_read : ℕ → Option Text → Option Text
then_read c none = none
then_read c (some word) = some (c ∷ word)

-- In double quotes `$`, a backquote and `\` are special.
abbrev is_special : ℕ → Bool
is_special c = c == b'$' || (c == b'`' || c == b'\\')

-- The one word that a text is, if it is quoted throughout and asks for no expansion.
unfoldable pub read_word : Mode → Text → Option Text
read_word bare [] = some []
read_word single [] = none
read_word double [] = none
read_word bare (c ∷ s) =
    let in_single = read_word single s in
    let in_double = read_word double s in
    if c == b'\'' then in_single else if c == b'"' then in_double else none
read_word single (c ∷ s) =
    let outside = read_word bare s in
    let inside = read_word single s in if c == b'\'' then outside else then_read c inside
read_word double (c ∷ s) =
    let outside = read_word bare s in
    let inside = read_word double s in
    if c == b'"' then outside else if is_special c then none else then_read c inside

read_word-quote_body :
    (value : Text) → read_word single (quote_body value ++ b'\'' ∷ []) ≡ some value
unfolding read_word quote_body
read_word-quote_body [] = refl
read_word-quote_body (c ∷ value) = elim (Bool-cases (c == b'\'')) [
  | inl same ↦
      rw (same, quote_body)
        (ap (then_read b'\'') (read_word-quote_body value)
          ∙ ap (λ x. some (x ∷ value)) (sym ((==_iff c b'\'').0 same)))
  | inr other ↦
      rw (other, quote_body, other, read_word) (ap (then_read c) (read_word-quote_body value))
]

-- A shell reads a quoted value as one word, the value itself, whatever characters it has.
pub read_word-shell_quote : (value : Text) → read_word bare (shell_quote value) ≡ some value
unfolding shell_quote read_word
read_word-shell_quote value = read_word-quote_body value
