-- ===== src/PortForward/Parsed.antt =====
-- What the parser of src/port_forward.rs guarantees of the port lists that it accepts.
use kelinode_rs.Prelude.{
  ℕ, ◌+◌, ◌-◌, ◌≤◌, ◌<◌, Bool, true, false, not, ◌&&◌, ◌||◌, Option, none, some, List, [], ◌∷◌, ltb,
  leb, ◌==◌, if◌then◌else◌, keep, is_empty, ◌≡◌, refl, ◌∙◌, arith, All, All-append, any, any-append,
  inl, inr, Bool-cases, if_intro,
}
use kelinode_rs.Prelude.Text.{Text, trim, has_char, split}
use kelinode_rs.Prelude.Decimal.{parse_u32}
use kelinode_rs.Prelude.Result.{Ensures, Result, ok, err, ◌>>=◌}
use kelinode_rs.PortForward.{PortForwardMatcher, PortForwardRange, u16_max, range_matcher}
use kelinode_rs.PortForward.Ranges.{in_range, covers, IsPortRange}
use kelinode_rs.PortForward.Matchers.{
  matches, among, ArePorts, matches-flush_singles, matches-range_matcher,
}
use kelinode_rs.PortForward.Parse.{
  Parsed, nothing_parsed, parse_port_number, parse_range_parts, parse_port_range, add_single,
  append_range, add_range, flush, parse_token, parse_tokens,
  parse_port_forward_matchers_and_ranges_except,
}

pub Ensures-bind :
    {E A B : Type 0} (P : A → Type 0) (Q : B → Type 0) (m : Result E A) (k : A → Result E B)
    → Ensures P m
    → ((a : A) → P a → Ensures Q (k a))
    → Ensures Q (m >>= k)
Ensures-bind P Q (ok a) k h f = f a h
Ensures-bind P Q (err e) k h f = tt

Ensures-if :
    {E A : Type 0} (P : A → Type 0) (b : Bool) (m n : Result E A)
    → (b ≡ true → Ensures P m)
    → (b ≡ false → Ensures P n)
    → Ensures P (if b then m else n)
Ensures-if P true m n h k = h refl
Ensures-if P false m n h k = k refl

Ensures-option :
    {E A B : Type 0} (P : B → Type 0) (o : Option A) (m : Result E B) (k : A → Result E B)
    → Ensures P m
    → ((a : A) → Ensures P (k a))
    → Ensures P (elim o as (λ _. Result E B) [ none ↦ m | some a ↦ k a ])
Ensures-option P none m k h f = h
Ensures-option P (some a) m k h f = f a

abbrev pub IsPort : ℕ → Type 0
IsPort n = (1 ≤ n) × (n ≤ u16_max)

abbrev pub IsSpan : ℕ × ℕ → Type 0
IsSpan (a, b) = (1 ≤ a) × (a ≤ b) × (b ≤ u16_max)

parse_port_number-IsPort : (s : Text) → Ensures IsPort (parse_port_number s)
unfolding parse_port_number
parse_port_number-IsPort [] = tt
parse_port_number-IsPort (c ∷ s) = Ensures-option IsPort (parse_u32 (c ∷ s)) _ _ tt λ n.
    Ensures-if IsPort (n == 0 || ltb u16_max n) _ _ (λ _. tt) (λ h. (ground arith, ground arith))

parse_range_parts-IsSpan :
    (token : Text) (parts : List Text) → Ensures IsSpan (parse_range_parts token parts)
unfolding parse_range_parts
parse_range_parts-IsSpan token [] = tt
parse_range_parts-IsSpan token (a ∷ []) = tt
parse_range_parts-IsSpan token (a ∷ b ∷ []) =
    Ensures-bind IsPort IsSpan (parse_port_number a) _ (parse_port_number-IsPort a) λ start h.
      Ensures-bind IsPort IsSpan (parse_port_number b) _ (parse_port_number-IsPort b)
        λ end k. Ensures-if IsSpan (ltb end start) _ _ (λ _. tt) (λ e. ground arith)
parse_range_parts-IsSpan token (a ∷ b ∷ c ∷ parts) = tt

parse_port_range-IsSpan : (token : Text) → Ensures IsSpan (parse_port_range token)
unfolding parse_port_range
parse_port_range-IsSpan token =
    parse_range_parts-IsSpan token (split (if has_char b'-' token then b'-' else b':') token)

-- The loop's invariant: valid ranges without the excluded port, which the matchers and the pending
-- single ports match exactly.
pub record IsParsed (excluded_port : ℕ) (p : Parsed) : Type 0 where
  pub ranges_valid : All IsPortRange p.ranges
  pub singles_valid : ArePorts p.singles
  pub excluded : 0 < excluded_port → covers excluded_port p.ranges ≡ false
  pub matched :
      (port : ℕ) → (any (matches port) p.matchers || among port p.singles) ≡ covers port p.ranges

module _ (excluded_port : ℕ) where
  nothing-IsParsed : IsParsed excluded_port nothing_parsed
  nothing-IsParsed = record {
    ranges_valid = tt;
    singles_valid = tt;
    excluded = λ _. refl;
    matched = λ port. refl;
  }

  add_single-IsParsed :
      (port : ℕ) (p : Parsed)
      → IsPort port
      → IsParsed excluded_port p
      → IsParsed excluded_port (add_single port excluded_port p)
  unfolding add_single
  add_single-IsParsed port p h inv = elim (Bool-cases (port == excluded_port)) [
    | inl same ↦ rw same inv
    | inr other ↦
        let r : PortForwardRange = record { start = port; end = port } in
        rw other (record {
          ranges_valid =
              All-append IsPortRange p.ranges (r ∷ []) inv.ranges_valid
                ((h.0, (omega arith), h.1), tt);
          singles_valid =
              All-append (λ n. n ≤ u16_max) p.singles (port ∷ []) inv.singles_valid (h.1, tt);
          excluded = λ q.
              any-append (in_range excluded_port) p.ranges (r ∷ [])
              ∙ ground (arith, inv.excluded q);
          matched = λ x. ground (
            arith,
            inv.matched x,
            any-append (in_range x) p.ranges (r ∷ []),
            any-append (λ n. leb n x && leb x n) p.singles (port ∷ []),
          );
        })
  ]

  flush-IsParsed : (p : Parsed) → IsParsed excluded_port p → IsParsed excluded_port (flush p)
  flush-IsParsed p inv = record {
    ranges_valid = inv.ranges_valid;
    singles_valid = tt;
    excluded = inv.excluded;
    matched = λ x.
        ground
          (arith, inv.matched x, matches-flush_singles x p.singles p.matchers inv.singles_valid);
  }

  append_range-IsParsed :
      (start end : ℕ) (p : Parsed)
      → IsSpan (start, end)
      → (0 < excluded_port → in_range excluded_port (record { start = start; end = end }) ≡ false)
      → IsParsed excluded_port p
      → IsParsed excluded_port (append_range start end p)
  append_range-IsParsed start end p h out inv =
      let r : PortForwardRange = record { start = start; end = end } in
      record {
        ranges_valid = All-append IsPortRange p.ranges (r ∷ []) inv.ranges_valid (h, tt);
        singles_valid = inv.singles_valid;
        excluded = λ q.
            any-append (in_range excluded_port) p.ranges (r ∷ [])
            ∙ ground (arith, inv.excluded q, out q);
        matched = λ x. ground (
          arith,
          inv.matched x,
          any-append (in_range x) p.ranges (r ∷ []),
          any-append (matches x) p.matchers (range_matcher start end ∷ []),
          matches-range_matcher x r h,
        );
      }

  add_range-IsParsed :
      (start end : ℕ) (p : Parsed)
      → IsSpan (start, end)
      → IsParsed excluded_port p
      → IsParsed excluded_port (add_range start end excluded_port p)
  unfolding add_range
  add_range-IsParsed start end p h inv =
      if_intro (IsParsed excluded_port)
        (ltb 0 excluded_port && (leb start excluded_port && leb excluded_port end))
        (λ inside.
          let below =
            if_intro (IsParsed excluded_port) (ltb start excluded_port)
              (λ e.
                append_range-IsParsed start (excluded_port - 1) p (ground arith) (λ _. ground arith)
                  inv)
              (λ _. inv) in
          if_intro (IsParsed excluded_port) (ltb excluded_port end)
            (λ e.
              append_range-IsParsed (excluded_port + 1) end _ (ground arith) (λ _. ground arith)
                below)
            (λ _. below))
        (λ outside. append_range-IsParsed start end p h (λ q. ground arith) inv)

  parse_token-IsParsed :
      (token : Text) (p : Parsed)
      → IsParsed excluded_port p
      → Ensures (IsParsed excluded_port) (parse_token excluded_port token p)
  unfolding parse_token
  parse_token-IsParsed token p inv =
      let Q = IsParsed excluded_port in
      Ensures-if Q (is_empty token) _ _ (λ _. tt)
        λ _.
          Ensures-if Q (has_char b'-' token || has_char b':' token) _ _
            (λ _.
              Ensures-bind IsSpan Q (parse_port_range token) _ (parse_port_range-IsSpan token)
                λ r h.
                  if_intro Q (r.0 == r.1) (λ _. add_single-IsParsed r.0 p (h.0, omega arith) inv)
                    (λ _. add_range-IsParsed r.0 r.1 (flush p) h (flush-IsParsed p inv)))
            (λ _.
              Ensures-bind IsPort Q (parse_port_number token) _ (parse_port_number-IsPort token)
                λ port h. add_single-IsParsed port p h inv)

  parse_tokens-IsParsed :
      (tokens : List Text) (p : Parsed)
      → IsParsed excluded_port p
      → Ensures (IsParsed excluded_port) (parse_tokens excluded_port tokens p)
  unfolding parse_tokens
  parse_tokens-IsParsed [] p inv = inv
  parse_tokens-IsParsed (token ∷ tokens) p inv =
      Ensures-bind (IsParsed excluded_port) (IsParsed excluded_port)
        (parse_token excluded_port token p) (parse_tokens excluded_port tokens)
        (parse_token-IsParsed token p inv) (parse_tokens-IsParsed tokens)

-- Of an accepted list the ranges are valid and leave the excluded port out, and the matchers match
-- exactly the ports of the ranges.
pub record IsAccepted (excluded_port : ℕ) (r : List PortForwardMatcher × List PortForwardRange)
    : Type 0 where
  pub valid : All IsPortRange r.1
  pub excluded : 0 < excluded_port → covers excluded_port r.1 ≡ false
  pub matched : (port : ℕ) → any (matches port) r.0 ≡ covers port r.1

-- If a port list is accepted, its ranges lie within the ports, do not cover a positive excluded
-- port, and cover exactly the ports that its matchers match.
pub parse-IsAccepted :
    (raw : Text) (excluded_port : ℕ)
    → Ensures
        (IsAccepted excluded_port)
        (parse_port_forward_matchers_and_ranges_except raw excluded_port)
unfolding parse_port_forward_matchers_and_ranges_except
parse-IsAccepted raw excluded_port =
    let cleaned = keep (λ c. not (c == b' ')) (trim raw) in
    Ensures-if (IsAccepted excluded_port) (is_empty cleaned) _ _ (λ _. tt)
      λ _.
        Ensures-bind (IsParsed excluded_port) (IsAccepted excluded_port)
          (parse_tokens excluded_port (split b',' cleaned) nothing_parsed) _
          (parse_tokens-IsParsed excluded_port (split b',' cleaned) nothing_parsed
            (nothing-IsParsed excluded_port))
          (λ p inv.
            let flushed = flush-IsParsed excluded_port p inv in
            record {
              valid = flushed.ranges_valid;
              excluded = flushed.excluded;
              matched = λ port. ground (arith, flushed.matched port);
            })
