-- ===== src/Prelude/Decimal/Laws.antt =====
-- Decimal notation is read back to the number that it shows.
use Prim.Native.Nat.{ℕ, zero, suc, ◌+◌, ◌-◌, ◌*◌, ◌/◌, ◌%◌, ◌≤◌, ◌<◌}
use mathlib.Core.Path.{◌≡◌, refl, ap, ◌∙◌}
use mathlib.Core.Bool.{true, false}
use mathlib.Core.List.{[], ◌∷◌, ◌++◌}
use mathlib.Core.Option.{some}
use mathlib.Core.Logic.{inl, inr, ◌≢◌}
use native.Mathlib.Omega.{arith}
use kelinode_rs.Prelude.Tests.{ltb, Bool-cases}
use kelinode_rs.Prelude.Lists.{All, All-append}
use kelinode_rs.Prelude.Text.{Text, is_digit, has_char}
use kelinode_rs.Prelude.Decimal.{
  digits, decimal, u32_max, u64_max, read_digits, parse_unsigned, parse_u32, parse_usize,
}

abbrev pub AllDigits : Text → Type 0
AllDigits s = All (λ c. is_digit c ≡ true) s

digits-AllDigits : (fuel n : ℕ) → AllDigits (digits fuel n)
unfolding digits is_digit
digits-AllDigits zero n = tt
digits-AllDigits (suc fuel) n = elim (Bool-cases (ltb n 10)) [
  | inl small ↦ rw small (ground arith, tt)
  | inr large ↦ rw large (
      All-append (λ c. is_digit c ≡ true) (digits fuel (n / 10)) ((n % 10 + b'0') ∷ [])
        (digits-AllDigits fuel (n / 10)) (ground arith, tt))
]

pub decimal-AllDigits : (n : ℕ) → AllDigits (decimal n)
unfolding decimal
decimal-AllDigits n = digits-AllDigits (suc n) n

-- No digit is a separator.
pub AllDigits-without : (c : ℕ) (s : Text) → is_digit c ≡ false → AllDigits s → has_char c s ≡ false
AllDigits-without c [] h a = refl
AllDigits-without c (d ∷ s) h (p, a) = ground (arith, AllDigits-without c s h a)

read_digits-append :
    (most acc : ℕ) (s : Text) (d k : ℕ)
    → read_digits most acc s ≡ some k
    → is_digit d ≡ true
    → k * 10 + (d - b'0') ≤ most
    → read_digits most acc (s ++ d ∷ []) ≡ some (k * 10 + (d - b'0'))
unfolding read_digits
read_digits-append most acc [] d k h g b = ground arith
read_digits-append most acc (c ∷ s) d k h g b =
    ground (arith, read_digits-append most (acc * 10 + (c - b'0')) s d k)

is_digit_low : (d : ℕ) → d < 10 → is_digit (d + b'0') ≡ true
unfolding is_digit
is_digit_low d h = ground arith

append_ne_nil : (s : Text) (c : ℕ) → s ++ c ∷ [] ≢ []
append_ne_nil [] c h = cc
append_ne_nil (d ∷ s) c h = cc

read_digits-digits :
    (most fuel n : ℕ) → n < fuel → n ≤ most → read_digits most 0 (digits fuel n) ≡ some n
unfolding digits
read_digits-digits most zero n h b = elim h [ ]
read_digits-digits most (suc fuel) n h b = elim (Bool-cases (ltb n 10)) [
  | inl small ↦ rw small (unfold read_digits in ground arith)
  | inr large ↦ rw large (
      read_digits-append most 0 (digits fuel (n / 10)) (n % 10 + b'0') (n / 10)
        (read_digits-digits most fuel (n / 10) (ground arith) (omega arith))
        (is_digit_low (n % 10) (omega arith)) (omega arith)
      ∙ ap some (omega arith))
]

digits_ne_nil : (fuel n : ℕ) → digits (suc fuel) n ≢ []
unfolding digits
digits_ne_nil fuel n h = elim (Bool-cases (ltb n 10)) [
  | inl small ↦ cc (rw small at h)
  | inr large ↦ append_ne_nil (digits fuel (n / 10)) _ (rw large at h)
]

-- A text that is read digit by digit is also parsed: it is not empty and has no sign.
parse_of_digits :
    (most : ℕ) (s : Text) → s ≢ [] → AllDigits s → parse_unsigned most s ≡ read_digits most 0 s
unfolding parse_unsigned is_digit
parse_of_digits most [] h a = absurd (h refl)
parse_of_digits most (c ∷ []) h (p, a) = ground arith
parse_of_digits most (c ∷ d ∷ s) h (p, a) = ground arith

parse_unsigned-decimal : (most n : ℕ) → n ≤ most → parse_unsigned most (decimal n) ≡ some n
unfolding decimal
parse_unsigned-decimal most n b =
    parse_of_digits most (digits (suc n) n) (digits_ne_nil n n) (digits-AllDigits (suc n) n)
    ∙ read_digits-digits most (suc n) n (omega arith) b

pub parse_u32-decimal : (n : ℕ) → n ≤ u32_max → parse_u32 (decimal n) ≡ some n
unfolding parse_u32
parse_u32-decimal n b = parse_unsigned-decimal u32_max n b

pub parse_usize-decimal : (n : ℕ) → n ≤ u64_max → parse_usize (decimal n) ≡ some n
unfolding parse_usize
parse_usize-decimal n b = parse_unsigned-decimal u64_max n b
