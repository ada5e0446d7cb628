-- ===== src/Prelude/Str.antt =====
-- Further methods of Rust's `str` that the code calls.
use Prim.Native.Nat.{ℕ}
use mathlib.Core.Bool.{Bool, ◌&&◌, ◌||◌, not}
use mathlib.Core.List.{List, [], ◌∷◌, map, reverse}
use mathlib.Core.Option.{Option, none, some}
use kelinode_rs.Prelude.Tests.{◌==◌, if◌then◌else◌, leb}
use kelinode_rs.Prelude.Lists.{is_empty, keep}
use kelinode_rs.Prelude.Text.{
  Text, text_eq, is_whitespace, to_lower, on_head, starts_with, strip_prefix,
}

unfoldable pub eq_ignore_ascii_case : Text → Text → Bool
unfolding text_eq to_lower
eq_ignore_ascii_case s t = text_eq (map to_lower s) (map to_lower t)

abbrev pub cons_left : ℕ → Option (Text × Text) → Option (Text × Text)
cons_left c none = none
cons_left c (some (s, t)) = some (c ∷ s, t)

unfoldable pub split_once : ℕ → Text → Option (Text × Text)
split_once sep [] = none
split_once sep (c ∷ s) =
    let rest = split_once sep s in if c == sep then some ([], s) else cons_left c rest

-- `split_once` at a text.
unfoldable pub split_once_text : Text → Text → Option (Text × Text)
unfolding strip_prefix
split_once_text sep [] = elim (strip_prefix sep []) [ none ↦ none | some rest ↦ some ([], rest) ]
split_once_text sep (c ∷ s) =
    let later = split_once_text sep s in
    elim (strip_prefix sep (c ∷ s)) [ none ↦ cons_left c later | some rest ↦ some ([], rest) ]

abbrev swapped : Option (Text × Text) → Option (Text × Text)
swapped none = none
swapped (some (s, t)) = some (reverse t, reverse s)

unfoldable pub rsplit_once : ℕ → Text → Option (Text × Text)
unfolding split_once
rsplit_once sep s = swapped (split_once sep (reverse s))

-- The parts between white space, empty ones left out.
abbrev pub pieces : (ℕ → Bool) → Text → List Text
pieces p [] = [] ∷ []
pieces p (c ∷ s) = let rest = pieces p s in if p c then [] ∷ rest else on_head c rest

unfoldable pub split_whitespace : Text → List Text
unfolding is_whitespace
split_whitespace s = keep (λ part. not (is_empty part)) (pieces is_whitespace s)

-- `split("\r\n")`
unfoldable pub split_crlf : Text → List Text
split_crlf [] = [] ∷ []
split_crlf (c ∷ []) = (c ∷ []) ∷ []
split_crlf (c ∷ d ∷ s) =
    let after = split_crlf s in
    let longer = split_crlf (d ∷ s) in if c == 13 && d == 10 then [] ∷ after else on_head c longer

-- `contains` of a text.
unfoldable pub contains : Text → Text → Bool
contains part [] = starts_with part []
contains part (c ∷ s) = starts_with part (c ∷ s) || contains part s

-- `trim_start_matches` of a text that is not empty: no more removals than characters.
trim_start_text_on : Text → Text → Text → Text
unfolding strip_prefix
trim_start_text_on [] part s = s
trim_start_text_on (_ ∷ fuel) part s = elim (strip_prefix part s) [
  | none ↦ s
  | some rest ↦ trim_start_text_on fuel part rest
]

unfoldable pub trim_start_text : Text → Text → Text
unfolding trim_start_text_on
trim_start_text part s = trim_start_text_on s part s

-- `char::is_control`
unfoldable pub is_control : ℕ → Bool
is_control c = leb c 31 || leb 127 c && leb c 159
