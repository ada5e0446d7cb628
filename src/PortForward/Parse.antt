-- ===== src/PortForward/Parse.antt =====
-- src/port_forward.rs: the parser of port lists such as `443,1000-2000`. An error is the case of the
-- message that the code formats, with the token that the message quotes.
use kelinode_rs.Prelude.{
  ℕ, ◌+◌, ◌-◌, not, ◌&&◌, ◌||◌, none, some, List, [], ◌∷◌, ◌++◌, ltb, leb, ◌==◌, if◌then◌else◌,
  keep, is_empty,
}
use kelinode_rs.Prelude.Text.{Text, trim, has_char, split}
use kelinode_rs.Prelude.Decimal.{parse_u32}
use kelinode_rs.Prelude.Result.{Result, ok, err, ◌>>=◌}
use kelinode_rs.PortForward.{
  PortForwardMatcher, PortForwardRange, u16_max, flush_singles, range_matcher,
}

pub data PortError : Type 0 where
  empty_port : PortError
  empty_token : PortError
  invalid_port : Text → PortError
  port_out_of_range : Text → PortError
  invalid_range : Text → PortError
  invalid_reversed_range : Text → PortError

unfoldable pub parse_port_number : Text → Result PortError ℕ
parse_port_number [] = err empty_port
parse_port_number (c ∷ s) = elim (parse_u32 (c ∷ s)) [
  | none ↦ err (invalid_port (c ∷ s))
  | some port ↦ if port == 0 || ltb u16_max port then err (port_out_of_range (c ∷ s)) else ok port
]

-- The two parts of a range.
unfoldable pub parse_range_parts : Text → List Text → Result PortError (ℕ × ℕ)
unfolding parse_port_number
parse_range_parts token (first ∷ second ∷ []) = do
  start ← parse_port_number first
  end ← parse_port_number second
  if ltb end start then err (invalid_reversed_range token) else ok (start, end)
parse_range_parts token _ = err (invalid_range token)

unfoldable pub parse_port_range : Text → Result PortError (ℕ × ℕ)
unfolding parse_range_parts
parse_port_range token =
    parse_range_parts token (split (if has_char b'-' token then b'-' else b':') token)

-- The three vectors of the parser's loop.
pub record Parsed : Type 0 where
  pub matchers : List PortForwardMatcher
  pub ranges : List PortForwardRange
  pub singles : List ℕ

abbrev pub nothing_parsed : Parsed
nothing_parsed = record { matchers = []; ranges = []; singles = [] }

unfoldable pub add_single : ℕ → ℕ → Parsed → Parsed
add_single port excluded_port p = if port == excluded_port then p else record p {
  singles = p.singles ++ port ∷ [];
  ranges = p.ranges ++ record { start = port; end = port } ∷ [];
}

-- The closure `append_range` of `add_range`.
abbrev pub append_range : ℕ → ℕ → Parsed → Parsed
append_range start end p = record p {
  ranges = p.ranges ++ record { start = start; end = end } ∷ [];
  matchers = p.matchers ++ range_matcher start end ∷ [];
}

unfoldable pub add_range : ℕ → ℕ → ℕ → Parsed → Parsed
add_range start end excluded_port p =
    let below = if ltb start excluded_port then append_range start (excluded_port - 1) p else p in
    let both =
      if ltb excluded_port end then append_range (excluded_port + 1) end below else below in
    if ltb 0 excluded_port && (leb start excluded_port && leb excluded_port end)
    then both
    else append_range start end p

abbrev pub flush : Parsed → Parsed
flush p = record p { matchers = flush_singles p.singles p.matchers; singles = [] }

-- One round of the parser's loop.
unfoldable pub parse_token : ℕ → Text → Parsed → Result PortError Parsed
unfolding parse_port_range parse_port_number add_single add_range
parse_token excluded_port token p =
    let parse_span : Result PortError Parsed = (do
      (start, end) ← parse_port_range token
      ok (
          if start == end
          then add_single start excluded_port p
          else add_range start end excluded_port (flush p))) in
    let parse_single : Result PortError Parsed = (do
      port ← parse_port_number token
      ok (add_single port excluded_port p)) in
    if is_empty token
    then err empty_token
    else if has_char b'-' token || has_char b':' token
    then parse_span
    else parse_single

unfoldable pub parse_tokens : ℕ → List Text → Parsed → Result PortError Parsed
unfolding parse_token
parse_tokens excluded_port [] p = ok p
parse_tokens excluded_port (token ∷ tokens) p =
    parse_token excluded_port token p >>= parse_tokens excluded_port tokens

unfoldable pub parse_port_forward_matchers_and_ranges_except :
    Text → ℕ → Result PortError (List PortForwardMatcher × List PortForwardRange)
unfolding parse_tokens
parse_port_forward_matchers_and_ranges_except raw excluded_port =
    let cleaned = keep (λ c. not (c == b' ')) (trim raw) in
    let parsed : Result PortError (List PortForwardMatcher × List PortForwardRange) = (do
      p ← parse_tokens excluded_port (split b',' cleaned) nothing_parsed
      ok ((flush p).matchers, (flush p).ranges)) in
    if is_empty cleaned then err empty_port else parsed

unfoldable pub parse_port_forward_matchers_except :
    Text → ℕ → Result PortError (List PortForwardMatcher)
unfolding parse_port_forward_matchers_and_ranges_except
parse_port_forward_matchers_except raw excluded_port =
    parse_port_forward_matchers_and_ranges_except raw excluded_port >>= λ r. ok r.0

unfoldable pub parse_port_forward_matchers : Text → Result PortError (List PortForwardMatcher)
unfolding parse_port_forward_matchers_except
parse_port_forward_matchers raw = parse_port_forward_matchers_except raw 0
