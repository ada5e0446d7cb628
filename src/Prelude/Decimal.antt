-- ===== src/Prelude/Decimal.antt =====
-- Decimal notation: `to_string` of an unsigned integer and `parse::<u32>`.
pub mod Laws
use Prim.Native.Nat.{ℕ, zero, suc, ◌+◌, ◌-◌, ◌*◌, ◌/◌, ◌%◌}
use mathlib.Core.Bool.{◌&&◌}
use mathlib.Core.List.{[], ◌∷◌, ◌++◌}
use mathlib.Core.Option.{Option, none, some}
use kelinode_rs.Prelude.Tests.{ltb, leb, ◌==◌, if◌then◌else◌}
use kelinode_rs.Prelude.Text.{Text, is_digit}

-- The digits of `n`, on fuel: more than `n` is enough.
digits : ℕ → ℕ → Text
digits zero n = []
digits (suc fuel) n =
    let more = digits fuel (n / 10) in
    if ltb n 10 then (n + b'0') ∷ [] else more ++ (n % 10 + b'0') ∷ []

unfoldable pub decimal : ℕ → Text
unfolding digits
decimal n = digits (suc n) n

abbrev pub u32_max : ℕ
u32_max = 4294967295

-- `usize` on a machine of 64 bits.
abbrev pub u64_max : ℕ
u64_max = 18446744073709551615

-- The digits left to right with a check for overflow at each; `none` is `ParseIntError`.
read_digits : ℕ → ℕ → Text → Option ℕ
unfolding is_digit
read_digits most acc [] = some acc
read_digits most acc (c ∷ s) =
    let next = acc * 10 + (c - b'0') in
    let rest = read_digits most next s in if is_digit c && leb next most then rest else none

-- A leading `+` is accepted, alone it is not.
read_signed : ℕ → ℕ → Text → Option ℕ
unfolding read_digits
read_signed most c [] = if c == b'+' then none else read_digits most 0 (c ∷ [])
read_signed most c (d ∷ s) =
    if c == b'+' then read_digits most 0 (d ∷ s) else read_digits most 0 (c ∷ d ∷ s)

-- `parse` as an unsigned integer with the greatest value `most`.
unfoldable pub parse_unsigned : ℕ → Text → Option ℕ
unfolding read_signed
parse_unsigned most [] = none
parse_unsigned most (c ∷ s) = read_signed most c s

unfoldable pub parse_u32 : Text → Option ℕ
unfolding parse_unsigned
parse_u32 s = parse_unsigned u32_max s

unfoldable pub parse_usize : Text → Option ℕ
unfolding parse_unsigned
parse_usize s = parse_unsigned u64_max s
