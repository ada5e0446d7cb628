-- ===== src/Prelude/Utf8.antt =====
-- The bytes of a `str`, and `from_utf8`, as the standard library has them.
pub mod Laws
use Prim.Native.Nat.{ℕ, zero, suc, ◌+◌, ◌-◌, ◌*◌, ◌/◌, ◌%◌}
use mathlib.Core.Bool.{Bool, ◌&&◌, not}
use mathlib.Core.List.{List, [], ◌∷◌, ◌++◌}
use mathlib.Core.Option.{Option, none, some}
use kelinode_rs.Prelude.Tests.{ltb, leb, ◌==◌, if◌then◌else◌}
use kelinode_rs.Prelude.Text.{Text}

abbrev pub Bytes : Type 0
Bytes = List ℕ

-- The low six bits in a byte that continues a character.
abbrev pub continued : ℕ → ℕ
continued c = 0x80 + c % 64

abbrev pub bytes_of : ℕ → Bytes
bytes_of c =
    if ltb c 0x80
    then c ∷ []
    else if ltb c 0x800
    then (0xc0 + c / 64) ∷ continued c ∷ []
    else if ltb c 0x10000
    then (0xe0 + c / 4096) ∷ continued (c / 64) ∷ continued c ∷ []
    else (0xf0 + c / 262144) ∷ continued (c / 4096) ∷ continued (c / 64) ∷ continued c ∷ []

-- `as_bytes`
unfoldable pub as_bytes : Text → Bytes
as_bytes [] = []
as_bytes (c ∷ s) = bytes_of c ++ as_bytes s

-- A Unicode scalar value: no surrogate, and at most U+10FFFF.
abbrev pub is_scalar : ℕ → Bool
is_scalar c = ltb c 0x110000 && not (leb 0xd800 c && leb c 0xdfff)

abbrev pub cons_char : ℕ → Option Text → Option Text
cons_char c none = none
cons_char c (some s) = some (c ∷ s)

-- What a byte at the start of a character is: a character of its own, or the first of several with
-- the number of those to come, the bits it gives and the least value that needs so many.
pub data Lead : Type 0 where
  whole bad : Lead
  start : ℕ → ℕ → ℕ → Lead

unfoldable pub lead : ℕ → Lead
lead b =
    if ltb b 0x80
    then whole
    else if leb 0xc0 b && ltb b 0xe0
    then start 1 (b - 0xc0) 0x80
    else if leb 0xe0 b && ltb b 0xf0
    then start 2 (b - 0xe0) 0x800
    else if leb 0xf0 b && ltb b 0xf8
    then start 3 (b - 0xf0) 0x10000
    else bad

abbrev pub is_continuation : ℕ → Bool
is_continuation b = leb 0x80 b && ltb b 0xc0

-- The number of bytes still to come of a character, its bits so far and its least value.
unfoldable pub decode : ℕ → ℕ → ℕ → Bytes → Option Text
decode zero bits least [] = some []
decode (suc more) bits least [] = none
decode zero bits least (b ∷ s) = elim (lead b) [
  | whole ↦ cons_char b (decode 0 0 0 s)
  | start more first needs ↦ decode more first needs s
  | bad ↦ none
]
decode (suc zero) bits least (b ∷ s) =
    let value = bits * 64 + (b - 0x80) in
    let rest = decode 0 0 0 s in
    if is_continuation b && (leb least value && is_scalar value) then cons_char value rest else none
decode (suc (suc more)) bits least (b ∷ s) =
    let rest = decode (suc more) (bits * 64 + (b - 0x80)) least s in
    if is_continuation b then rest else none

unfoldable pub from_utf8 : Bytes → Option Text
unfolding decode
from_utf8 s = decode 0 0 0 s
