-- ===== src/PortForward/Fields.antt =====
-- Fields joined by blanks, as src/port_forward.rs writes a spec, and its parser of such lines.
use kelinode_rs.Prelude.{
  ℕ, Bool, true, false, not, ◌&&◌, none, List, [], ◌∷◌, ◌++◌, is_empty, all, All, ◌≡◌, refl, sym,
  ap, ◌∙◌, arith, append_assoc, append-nil,
}
use kelinode_rs.Prelude.Text.{Text, text, join}
use kelinode_rs.PortForward.Spec.{
  is_quote, is_blank, Scan, push_field, scan_character, scan_characters, parse_iptables_spec,
}

abbrev pub is_plain_character : ℕ → Bool
is_plain_character c = not (is_quote c) && not (is_blank c)

-- A field that `iptables` prints without quotes.
abbrev pub IsPlain : Text → Type 0
IsPlain field = (is_empty field ≡ false) × (all is_plain_character field ≡ true)

abbrev outside : List Text → Text → Scan
outside fields builder = record { fields = fields; builder = builder; quote = none }

scan_plain :
    (fields : List Text) (builder : Text) (c : ℕ)
    → is_plain_character c ≡ true
    → scan_character (outside fields builder) c ≡ outside fields (builder ++ c ∷ [])
unfolding scan_character
scan_plain fields builder c h = ground arith

push_word :
    (fields : List Text) (word : Text)
    → is_empty word ≡ false
    → push_field (outside fields word) ≡ outside (fields ++ word ∷ []) []
push_word fields word h = ground arith

scan_word :
    (fields : List Text) (builder word rest : Text)
    → all is_plain_character word ≡ true
    → scan_characters (outside fields builder) (word ++ rest)
      ≡ scan_characters (outside fields (builder ++ word)) rest
unfolding scan_characters
scan_word fields builder [] rest h =
    ap (λ b. scan_characters (outside fields b) rest) (sym (append-nil builder))
scan_word fields builder (c ∷ word) rest h =
    ap (λ s. scan_characters s (word ++ rest)) (scan_plain fields builder c (ground arith))
    ∙ scan_word fields (builder ++ c ∷ []) word rest (ground arith)
    ∙ ap (λ b. scan_characters (outside fields b) rest) (append_assoc builder (c ∷ []) word)

scan_words :
    (fields : List Text) (word : Text) (words : List Text)
    → All IsPlain (word ∷ words)
    → (push_field (scan_characters (outside fields []) (join (text " ") (word ∷ words)))).fields
      ≡ fields ++ word ∷ words
unfolding join scan_characters scan_character
scan_words fields word [] (h, hs) =
    ap (λ w. (push_field (scan_characters (outside fields []) w)).fields) (sym (append-nil word))
    ∙ ap (λ s. (push_field s).fields) (scan_word fields [] word [] h.1)
    ∙ ap (λ s. s.fields) (push_word fields word h.0)
scan_words fields word (next ∷ words) (h, hs) =
    let rest = join (text " ") (next ∷ words) in
    ap (λ s. (push_field s).fields) (scan_word fields [] word (b' ' ∷ rest) h.1)
    ∙ ap (λ s. (push_field (scan_characters s rest)).fields) (push_word fields word h.0)
    ∙ scan_words (fields ++ word ∷ []) next words hs
    ∙ append_assoc fields (word ∷ []) (next ∷ words)

-- Fields that are not empty and have no quotes, blanks or tabs are read back from the line that
-- joins them by blanks.
pub parse_iptables_spec-join :
    (fields : List Text)
    → All IsPlain fields
    → parse_iptables_spec (join (text " ") fields) ≡ fields
unfolding parse_iptables_spec join
parse_iptables_spec-join [] h = refl
parse_iptables_spec-join (field ∷ fields) h = scan_words [] field fields h
