-- ===== src/PortForward.antt =====
-- src/port_forward.rs: the iptables rules that redirect the external ports of a Hysteria2 or Mieru
-- node to its server port. This file has the data and the operations on ranges and matchers; the
-- children have the parser, the rule builder and the text of the rules, and what is proved of them.
-- A `u16` is a number with its bound written out where the code relies on it.
pub mod Parse
pub mod Ranges
pub mod Matchers
pub mod Parsed
pub mod Rules
pub mod Spec
pub mod Commands
pub mod Inspect
pub mod Tools
pub mod Repair
pub mod Fields
pub mod Managed
pub mod Added
pub mod Difference
pub mod Unprivileged
pub mod Reports
pub mod Building
pub mod Disjoint
pub mod Safety
pub mod Mieru
pub mod Args
pub mod Chunks
pub mod Complete
pub mod ServedPorts
pub mod Served
mod Tests
mod CommandTests
use kelinode_rs.Prelude.{
  ℕ, zero, suc, ◌+◌, ◌-◌, min, Bool, true, false, not, ◌&&◌, ◌||◌, Option, none, some, List, [],
  ◌∷◌, ◌++◌, map, ltb, leb, ◌==◌, if◌then◌else◌, length, take, drop,
}
use kelinode_rs.Prelude.Text.{Text, text, text_eq, join}
use kelinode_rs.Prelude.Decimal.{decimal}

pub record PortForwardMatcher : Type 0 where
  pub args : List Text
  pub single_port : Option ℕ

pub record PortForwardRule : Type 0 where
  pub matcher : PortForwardMatcher
  pub target_port : ℕ
  pub protocol : Text
  pub comment : Text

pub record FirewallAllowRule : Type 0 where
  pub protocol : Text
  pub port : ℕ
  pub comment : Text

pub record PortForwardCommand : Type 0 where
  pub tool : Text
  pub args : List Text

pub record PortForwardRange : Type 0 where
  pub start : ℕ
  pub end : ℕ

pub record AllocatedPortForwardRange : Type 0 where
  pub node_id : ℕ
  pub target_port : ℕ
  pub protocol : Text
  pub range : PortForwardRange

abbrev pub hysteria_port_forward_comment : Text
hysteria_port_forward_comment = text "V2NODE-HY2"

abbrev pub hysteria_port_forward_chain : Text
hysteria_port_forward_chain = text "V2NODE-HY2"

abbrev pub mieru_port_forward_comment : Text
mieru_port_forward_comment = text "V2NODE-MIERU"

abbrev pub u16_max : ℕ
u16_max = 65535

-- `{start}:{end}`
abbrev pub span_text : ℕ → ℕ → Text
span_text start end = decimal start ++ (b':' ∷ decimal end)

unfoldable pub overlaps : PortForwardRange → PortForwardRange → Bool
overlaps r other = leb r.start other.end && leb other.start r.end

-- One round of the loop of `subtract_range`: what `range` pushes to `output`.
unfoldable pub subtract_one : PortForwardRange → PortForwardRange → List PortForwardRange
unfolding overlaps
subtract_one range blocked =
    if not (overlaps range blocked)
    then range ∷ []
    else (if ltb range.start blocked.start
        then record { start = range.start; end = blocked.start - 1 } ∷ []
        else [])
      ++ (if ltb blocked.end range.end
          then record { start = min (blocked.end + 1) u16_max; end = range.end } ∷ []
          else [])

unfoldable pub subtract_range : List PortForwardRange → PortForwardRange → List PortForwardRange
unfolding subtract_one
subtract_range [] blocked = []
subtract_range (range ∷ ranges) blocked =
    subtract_one range blocked ++ subtract_range ranges blocked

unfoldable pub subtract_single_port : List PortForwardRange → ℕ → List PortForwardRange
unfolding subtract_range
subtract_single_port ranges port = subtract_range ranges (record { start = port; end = port })

-- `target_ports` by its keys.
unfoldable pub trim_target_port_conflicts :
    List PortForwardRange → ℕ → List ℕ → List PortForwardRange
unfolding subtract_single_port
trim_target_port_conflicts ranges target_port [] = ranges
trim_target_port_conflicts ranges target_port (port ∷ ports) =
    trim_target_port_conflicts
      (if port == target_port then ranges else subtract_single_port ranges port) target_port ports

unfoldable pub trim_allocated_range_conflicts :
    List PortForwardRange → ℕ → Text → List AllocatedPortForwardRange → List PortForwardRange
unfolding subtract_range
trim_allocated_range_conflicts ranges target_port protocol [] = ranges
trim_allocated_range_conflicts ranges target_port protocol (existing ∷ allocated) =
    trim_allocated_range_conflicts
      (if existing.target_port == target_port || not (text_eq existing.protocol protocol)
        then ranges
        else subtract_range ranges existing.range)
      target_port protocol allocated

-- The matcher of one chunk of single ports.
unfoldable pub chunk_matcher : List ℕ → PortForwardMatcher
chunk_matcher (port ∷ []) = record {
  args = text "--dport" ∷ decimal port ∷ [];
  single_port = some port;
}
chunk_matcher chunk = record {
  args = text "-m" ∷ text "multiport" ∷ text "--dports" ∷ join (text ",") (map decimal chunk) ∷ [];
  single_port = none;
}

unfoldable pub range_matcher : ℕ → ℕ → PortForwardMatcher
range_matcher start end = record {
  args = text "--dport" ∷ span_text start end ∷ [];
  single_port = none;
}

-- The `while` loop of `flush_singles`, on fuel: the matchers that it pushes. Each round drains 1 to
-- 15 ports, so as many rounds as there are ports are enough.
unfoldable pub flush_chunks : ℕ → List ℕ → List PortForwardMatcher
unfolding chunk_matcher
flush_chunks zero singles = []
flush_chunks (suc fuel) [] = []
flush_chunks (suc fuel) (port ∷ singles) =
    let chunk_size = min (length (port ∷ singles)) 15 in
    chunk_matcher (take chunk_size (port ∷ singles))
    ∷ flush_chunks fuel (drop chunk_size (port ∷ singles))

-- The matchers after the call; `singles` is left empty.
unfoldable pub flush_singles : List ℕ → List PortForwardMatcher → List PortForwardMatcher
unfolding flush_chunks
flush_singles singles matchers = matchers ++ flush_chunks (length singles) singles

-- The loop of `port_forward_matchers_from_ranges` over `matchers` and `singles`.
unfoldable pub collect_matchers :
    List PortForwardMatcher → List ℕ → List PortForwardRange → List PortForwardMatcher
unfolding flush_singles range_matcher
collect_matchers matchers singles [] = flush_singles singles matchers
collect_matchers matchers singles (range ∷ ranges) =
    let single = collect_matchers matchers (singles ++ range.start ∷ []) ranges in
    let spread =
      collect_matchers (flush_singles singles matchers ++ range_matcher range.start range.end ∷ [])
        [] ranges in
    if range.start == range.end then single else spread

unfoldable pub port_forward_matchers_from_ranges : List PortForwardRange → List PortForwardMatcher
unfolding collect_matchers
port_forward_matchers_from_ranges ranges = collect_matchers [] [] ranges

unfoldable pub first_non_empty : Text → Text → Text
first_non_empty [] fallback = fallback
first_non_empty (c ∷ value) fallback = c ∷ value
