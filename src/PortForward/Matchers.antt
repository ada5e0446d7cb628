-- ===== src/PortForward/Matchers.antt =====
-- What the matchers of src/port_forward.rs mean to iptables, and that they match the ports of the
-- ranges that they are made from. `--dport a`, `--dport a:b` and `--dports a,b,…` are read here by
-- their documentation, apart from the code that writes them.
use kelinode_rs.Prelude.{
  ℕ, zero, suc, ◌≤◌, min, Bool, false, ◌&&◌, ◌||◌, Option, some, List, [], ◌∷◌, ◌++◌, leb, map,
  ◌==◌, ◌≡◌, refl, sym, ap, ◌∙◌, arith, All, All-append, any, any-append, Bool-cases, inl, inr,
  length, take, drop, take-append-drop, length-drop,
}
use mathlib.Core.Path.{ap₂}
use kelinode_rs.Prelude.Text.{Text, text, text_eq, has_char, split, is_digit}
use kelinode_rs.Prelude.Split.{split_without, split_at, split-join, Without}
use kelinode_rs.Prelude.Decimal.{decimal, parse_u32}
use kelinode_rs.Prelude.Decimal.Laws.{decimal-AllDigits, AllDigits-without, parse_u32-decimal}
use kelinode_rs.PortForward.{
  PortForwardMatcher, PortForwardRange, u16_max, span_text, chunk_matcher, range_matcher,
  flush_chunks, flush_singles, collect_matchers, port_forward_matchers_from_ranges,
}
use kelinode_rs.PortForward.Ranges.{in_range, covers, IsPortRange}

abbrev pub between : ℕ → Option ℕ → Option ℕ → Bool
between port (some a) (some b) = leb a port && leb port b
between port _ _ = false

abbrev pub spec_bounds : ℕ → List Text → Bool
spec_bounds port (a ∷ []) = between port (parse_u32 a) (parse_u32 a)
spec_bounds port (a ∷ b ∷ []) = between port (parse_u32 a) (parse_u32 b)
spec_bounds port _ = false

-- `a` or `a:b`
unfoldable pub matches_spec : ℕ → Text → Bool
matches_spec port spec = spec_bounds port (split b':' spec)

-- The ports that a matcher's arguments select.
unfoldable pub matches_args : ℕ → List Text → Bool
unfolding matches_spec
matches_args port (flag ∷ spec ∷ []) = text_eq flag (text "--dport") && matches_spec port spec
matches_args port (m ∷ multiport ∷ flag ∷ specs ∷ []) =
    text_eq m (text "-m")
    && (text_eq multiport (text "multiport")
        && (text_eq flag (text "--dports") && any (matches_spec port) (split b',' specs)))
matches_args port _ = false

abbrev pub matches : ℕ → PortForwardMatcher → Bool
matches port m = matches_args port m.args

pub decimal_without : (c n : ℕ) → is_digit c ≡ false → has_char c (decimal n) ≡ false
decimal_without c n h = AllDigits-without c (decimal n) h (decimal-AllDigits n)

matches_spec-decimal :
    (port n : ℕ) → n ≤ u16_max → matches_spec port (decimal n) ≡ (leb n port && leb port n)
unfolding matches_spec
matches_spec-decimal port n h =
    ap (spec_bounds port)
      (split_without b':' (decimal n) (decimal_without b':' n (unfold is_digit in refl)))
    ∙ ap (λ o. between port o o) (parse_u32-decimal n (omega arith))

matches_spec-span :
    (port a b : ℕ)
    → a ≤ u16_max
    → b ≤ u16_max
    → matches_spec port (span_text a b) ≡ (leb a port && leb port b)
unfolding matches_spec
matches_spec-span port a b h k =
    let colon : is_digit b':' ≡ false = unfold is_digit in refl in
    ap (spec_bounds port) (
      split_at b':' (decimal a) (decimal b) (decimal_without b':' a colon)
      ∙ ap (λ ps. decimal a ∷ ps) (split_without b':' (decimal b) (decimal_without b':' b colon)))
    ∙ cc (parse_u32-decimal a (omega arith), parse_u32-decimal b (omega arith))

-- A port is among the single ports.
abbrev pub among : ℕ → List ℕ → Bool
among port singles = any (λ n. leb n port && leb port n) singles

abbrev pub ArePorts : List ℕ → Type 0
ArePorts singles = All (λ n. n ≤ u16_max) singles

any-decimal :
    (port : ℕ) (singles : List ℕ)
    → ArePorts singles
    → any (matches_spec port) (map decimal singles) ≡ among port singles
any-decimal port [] h = refl
any-decimal port (n ∷ singles) (h, hs) =
    rw (matches_spec-decimal port n h, any-decimal port singles hs)

pub decimals_Without : (singles : List ℕ) → Without b',' (map decimal singles)
decimals_Without [] = tt
decimals_Without (n ∷ singles) =
    (decimal_without b',' n (unfold is_digit in refl), decimals_Without singles)

matches-chunk_matcher :
    (port n : ℕ) (singles : List ℕ)
    → ArePorts (n ∷ singles)
    → matches port (chunk_matcher (n ∷ singles)) ≡ among port (n ∷ singles)
unfolding chunk_matcher matches_args text_eq
matches-chunk_matcher port n [] (h, hs) = matches_spec-decimal port n h ∙ ground arith
matches-chunk_matcher port n (k ∷ singles) h =
    ap (any (matches_spec port))
      (split-join b',' (decimal n) (map decimal (k ∷ singles)) (decimals_Without (n ∷ k ∷ singles)))
    ∙ any-decimal port (n ∷ k ∷ singles) h

pub matches-range_matcher :
    (port : ℕ) (r : PortForwardRange)
    → IsPortRange r
    → matches port (range_matcher r.start r.end) ≡ in_range port r
unfolding range_matcher matches_args text_eq
matches-range_matcher port r h = matches_spec-span port r.start r.end (omega arith) (omega arith)

All-take : (k : ℕ) (singles : List ℕ) → ArePorts singles → ArePorts (take k singles)
All-take zero singles h = tt
All-take (suc k) [] h = tt
All-take (suc k) (n ∷ singles) (h, hs) = (h, All-take k singles hs)

All-drop : (k : ℕ) (singles : List ℕ) → ArePorts singles → ArePorts (drop k singles)
All-drop zero singles h = h
All-drop (suc k) [] h = tt
All-drop (suc k) (n ∷ singles) (h, hs) = All-drop k singles hs

among-take-drop :
    (port k : ℕ) (singles : List ℕ)
    → (among port (take k singles) || among port (drop k singles)) ≡ among port singles
among-take-drop port k singles =
    sym (any-append (λ n. leb n port && leb port n) (take k singles) (drop k singles))
    ∙ ap (among port) (take-append-drop k singles)

-- A round drains at least one port.
pub chunk_size-suc : (n : ℕ) → min (suc n) 15 ≡ suc (min n 14)
chunk_size-suc n = omega arith

matches-flush_chunks :
    (port fuel : ℕ) (singles : List ℕ)
    → length singles ≤ fuel
    → ArePorts singles
    → any (matches port) (flush_chunks fuel singles) ≡ among port singles
unfolding flush_chunks
matches-flush_chunks port zero [] h a = refl
matches-flush_chunks port zero (n ∷ singles) h a = absurd (omega arith)
matches-flush_chunks port (suc fuel) [] h a = refl
matches-flush_chunks port (suc fuel) (n ∷ singles) h a =
    let k = min (length singles) 14 in
    rw (chunk_size-suc (length singles)) (
      ap₂ ◌||◌ (matches-chunk_matcher port n (take k singles) (a.0, All-take k singles a.1)) (
        matches-flush_chunks port fuel (drop k singles) (omega (arith, length-drop k singles))
          (All-drop k singles a.1))
      ∙ among-take-drop port (suc k) (n ∷ singles))

pub matches-flush_singles :
    (port : ℕ) (singles : List ℕ) (matchers : List PortForwardMatcher)
    → ArePorts singles
    → any (matches port) (flush_singles singles matchers)
      ≡ (any (matches port) matchers || among port singles)
unfolding flush_singles
matches-flush_singles port singles matchers a =
    any-append (matches port) matchers (flush_chunks (length singles) singles)
    ∙ ap (λ b. any (matches port) matchers || b)
        (matches-flush_chunks port (length singles) singles (omega arith) a)

matches-collect_matchers :
    (port : ℕ) (matchers : List PortForwardMatcher) (singles : List ℕ)
    (ranges : List PortForwardRange)
    → ArePorts singles
    → All IsPortRange ranges
    → any (matches port) (collect_matchers matchers singles ranges)
      ≡ (any (matches port) matchers || (among port singles || covers port ranges))
unfolding collect_matchers
matches-collect_matchers port matchers singles [] a h =
    matches-flush_singles port singles matchers a ∙ ground arith
matches-collect_matchers port matchers singles (r ∷ ranges) a (h, hs) =
    elim (Bool-cases (r.start == r.end)) [
      | inl same ↦ rw same (
          matches-collect_matchers port matchers (singles ++ r.start ∷ []) ranges
            (All-append (λ n. n ≤ u16_max) singles (r.start ∷ []) a (omega arith, tt)) hs
          ∙ ground (arith, any-append (λ n. leb n port && leb port n) singles (r.start ∷ [])))
      | inr spread ↦
          let flushed = flush_singles singles matchers in
          let m = range_matcher r.start r.end in
          rw spread (
            matches-collect_matchers port (flushed ++ m ∷ []) [] ranges tt hs
            ∙ ground (
              arith,
              any-append (matches port) flushed (m ∷ []),
              matches-flush_singles port singles matchers a,
              matches-range_matcher port r h,
            ))
    ]

-- The matchers made from ranges within the ports match the ports that the ranges cover, and no
-- others, however they are chunked.
pub matches-port_forward_matchers_from_ranges :
    (port : ℕ) (ranges : List PortForwardRange)
    → All IsPortRange ranges
    → any (matches port) (port_forward_matchers_from_ranges ranges) ≡ covers port ranges
unfolding port_forward_matchers_from_ranges
matches-port_forward_matchers_from_ranges port ranges h =
    matches-collect_matchers port [] [] ranges tt h ∙ ground arith
