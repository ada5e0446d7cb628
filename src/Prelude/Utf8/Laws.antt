-- ===== src/Prelude/Utf8/Laws.antt =====
-- Decoding the bytes of a text gives the text.
use Prim.Native.Nat.{ℕ, suc, ◌+◌, ◌-◌, ◌*◌, ◌/◌, ◌%◌, ◌<◌, ◌≤◌}
use mathlib.Core.Path.{◌≡◌, refl, sym, ap, ◌∙◌}
use mathlib.Core.Logic.{inl, inr}
use mathlib.Core.Bool.{true, ◌&&◌}
use mathlib.Core.List.{[], ◌∷◌, ◌++◌, append_assoc}
use mathlib.Core.Option.{some}
use native.Mathlib.Omega.{arith}
use kelinode_rs.Prelude.Tests.{ltb, leb, Bool-cases}
use kelinode_rs.Prelude.Text.{Text}
use kelinode_rs.Prelude.Lists.{All}
use kelinode_rs.Prelude.Utf8.{
  Bytes, continued, bytes_of, as_bytes, is_scalar, cons_char, decode, from_utf8, whole, start, lead,
  is_continuation,
}

abbrev pub IsString : Text → Type 0
IsString s = All (λ c. is_scalar c ≡ true) s

lead_whole : (b : ℕ) → b < 0x80 → lead b ≡ whole
unfolding lead
lead_whole b h = ground arith

lead_two : (x : ℕ) → x < 32 → lead (0xc0 + x) ≡ start 1 x 0x80
unfolding lead
lead_two x h = ground arith

lead_three : (x : ℕ) → x < 16 → lead (0xe0 + x) ≡ start 2 x 0x800
unfolding lead
lead_three x h = ground arith

lead_four : (x : ℕ) → x < 8 → lead (0xf0 + x) ≡ start 3 x 0x10000
unfolding lead
lead_four x h = ground arith

module _ (s : Bytes) where
  decode_first : (b : ℕ) → b < 0x80 → decode 0 0 0 (b ∷ s) ≡ cons_char b (decode 0 0 0 s)
  unfolding decode
  decode_first b h = rw (lead_whole b h, decode) refl

  decode_start :
      (b more first needs : ℕ)
      → lead b ≡ start more first needs
      → decode 0 0 0 (b ∷ s) ≡ decode more first needs s
  unfolding decode
  decode_start b more first needs h = rw (h, decode) refl

  decode_on :
      (more bits least b value : ℕ)
      → is_continuation b ≡ true
      → bits * 64 + (b - 0x80) ≡ value
      → decode (suc (suc more)) bits least (b ∷ s) ≡ decode (suc more) value least s
  unfolding decode
  decode_on more bits least b value h e = rw (h, e) refl

  decode_done :
      (bits least b value : ℕ)
      → is_continuation b ≡ true
      → bits * 64 + (b - 0x80) ≡ value
      → (leb least value && is_scalar value) ≡ true
      → decode 1 bits least (b ∷ s) ≡ cons_char value (decode 0 0 0 s)
  unfolding decode
  decode_done bits least b value h e k = rw (h, e, k) refl

  decode_more :
      (more bits least c : ℕ)
      → decode (suc (suc more)) bits least (continued c ∷ s)
        ≡ decode (suc more) (bits * 64 + c % 64) least s
  decode_more more bits least c =
      decode_on more bits least (continued c) (bits * 64 + c % 64) (ground arith) (omega arith)

  decode_last :
      (bits least c : ℕ)
      → least ≤ c
      → is_scalar c ≡ true
      → bits ≡ c / 64
      → decode 1 bits least (continued c ∷ s) ≡ cons_char c (decode 0 0 0 s)
  decode_last bits least c h k e =
      decode_done bits least (continued c) c (ground arith) (omega arith) (ground arith)

four_bits : (c : ℕ) → is_scalar c ≡ true → c / 262144 < 8
four_bits c h = let small : c < 0x110000 = ground arith in omega arith

decode-bytes_of :
    (c : ℕ) (s : Bytes)
    → is_scalar c ≡ true
    → decode 0 0 0 (bytes_of c ++ s) ≡ cons_char c (decode 0 0 0 s)
decode-bytes_of c s h = elim (Bool-cases (ltb c 0x80)) [
  | inl small ↦ rw small (decode_first s c (ground arith))
  | inr big ↦ elim (Bool-cases (ltb c 0x800)) [
    | inl small ↦
        rw (big, small)
          (decode_start (continued c ∷ s) _ _ _ _ (lead_two (c / 64) (ground arith))
            ∙ decode_last s (c / 64) 0x80 c (ground arith) h refl)
    | inr more ↦ elim (Bool-cases (ltb c 0x10000)) [
      | inl small ↦
          rw (big, more, small)
            (decode_start (continued (c / 64) ∷ continued c ∷ s) _ _ _ _
                (lead_three (c / 4096) (ground arith))
              ∙ decode_more (continued c ∷ s) 0 (c / 4096) 0x800 (c / 64)
              ∙ decode_last s (c / 4096 * 64 + c / 64 % 64) 0x800 c (ground arith) h (omega arith))
      | inr most ↦
          rw (big, more, most)
            (decode_start (continued (c / 4096) ∷ continued (c / 64) ∷ continued c ∷ s) _ _ _ _
                (lead_four (c / 262144) (four_bits c h))
              ∙ decode_more (continued (c / 64) ∷ continued c ∷ s) 1 (c / 262144) 0x10000 (c / 4096)
              ∙ decode_more (continued c ∷ s) 0 (c / 262144 * 64 + c / 4096 % 64) 0x10000 (c / 64)
              ∙ decode_last s ((c / 262144 * 64 + c / 4096 % 64) * 64 + c / 64 % 64) 0x10000 c
                  (ground arith) h (omega arith))
    ]
  ]
]

-- `from_utf8` undoes `as_bytes`.
pub from_utf8-as_bytes : (s : Text) → IsString s → from_utf8 (as_bytes s) ≡ some s
unfolding from_utf8 as_bytes
from_utf8-as_bytes [] h = unfold decode in refl
from_utf8-as_bytes (c ∷ s) (h, hs) =
    decode-bytes_of c (as_bytes s) h ∙ ap (cons_char c) (from_utf8-as_bytes s hs)

pub as_bytes-append : (s t : Text) → as_bytes (s ++ t) ≡ as_bytes s ++ as_bytes t
unfolding as_bytes
as_bytes-append [] t = refl
as_bytes-append (c ∷ s) t =
    ap (λ r. bytes_of c ++ r) (as_bytes-append s t)
    ∙ sym (append_assoc (bytes_of c) (as_bytes s) (as_bytes t))
