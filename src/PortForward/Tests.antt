-- ===== src/PortForward/Tests.antt =====
-- The rule builders of src/port_forward.rs at small inputs, and the theorems at inputs that meet
-- their hypotheses.
use mathlib.Core.List.{Memᴰ}
use kelinode_rs.Prelude.{
  none, is_empty, true, false, String, ℕ, List, [], ◌∷◌, any, ◌≡◌, refl, arith, All,
}
use kelinode_rs.Prelude.Decimal.{parse_u32}
use kelinode_rs.Prelude.Text.{to_upper, text, text_eq, trim, split}
use kelinode_rs.Prelude.Result.{Ensures, ok}
use kelinode_rs.Panel.{Protocol, NodeInfo}
use kelinode_rs.PortForward.{
  flush_singles, range_matcher, first_non_empty, PortForwardRange, subtract_range,
  port_forward_matchers_from_ranges,
}
use kelinode_rs.PortForward.Parse.{parse_port_range, parse_port_forward_matchers_and_ranges_except}
use kelinode_rs.PortForward.Ranges.{covers, IsPortRange}
use kelinode_rs.PortForward.Matchers.{matches, matches-port_forward_matchers_from_ranges}
use kelinode_rs.PortForward.Parsed.{IsAccepted, parse-IsAccepted}
use kelinode_rs.PortForward.Rules.{
  collect_hysteria_target_ports, mieru_port_forward_protocol, build_hysteria_port_forward_rules,
  build_mieru_port_forward_rules,
}
use kelinode_rs.BTreeMap.{keys, collect}
use kelinode_rs.PortForward.Building.{is_target}
use kelinode_rs.PortForward.Complete.{is_forwarded}
use kelinode_rs.PortForward.Served.{asked_ports, hysteria_rules-Served}
use kelinode_rs.PortForward.Safety.{
  AreUnambiguous, IsUnforwarded, hysteria_rules-AreUnambiguous, hysteria_rules-IsUnforwarded,
}
use kelinode_rs.PortForward.Mieru.{mieru_rules-AreSafe}

abbrev span : ℕ → ℕ → PortForwardRange
span a b = record { start = a; end = b }

abbrev spans : List PortForwardRange
spans = span 1000 2000 ∷ span 443 443 ∷ []

spans-IsPortRange : All IsPortRange spans
spans-IsPortRange =
    ((omega arith, omega arith, omega arith), ((omega arith, omega arith, omega arith), tt))

subtracted :
    subtract_range spans (span 1200 1300) ≡ span 1000 1199 ∷ span 1301 2000 ∷ span 443 443 ∷ []
unfolding subtract_range
subtracted = refl

matches-port_forward_matchers_from_ranges_example :
    any (matches 443) (port_forward_matchers_from_ranges spans) ≡ covers 443 spans
matches-port_forward_matchers_from_ranges_example =
    matches-port_forward_matchers_from_ranges 443 spans spans-IsPortRange

parsed_range : parse_port_range (text "1000-2000") ≡ ok (1000, 2000)
unfolding parse_port_range split parse_u32
parsed_range = refl

parse-IsAccepted_example :
    Ensures
      (IsAccepted 1500)
      (parse_port_forward_matchers_and_ranges_except (text "443, 1000-2000") 1500)
parse-IsAccepted_example = parse-IsAccepted (text "443, 1000-2000") 1500

abbrev node : ℕ → Protocol → ℕ → String → NodeInfo
node id protocol server_port ports = record {
  id = id;
  tag = [];
  protocol = protocol;
  common = record {
    server_port = server_port;
    port = [];
    ports = text ports;
    transport = text "tcp";
    base_config = none;
  };
}

abbrev hysteria_nodes : List NodeInfo
hysteria_nodes =
    node 1 Protocol.hysteria2 443 "1000-2000" ∷ node 2 Protocol.hysteria2 1500 "1400-3000" ∷ []

abbrev mieru_nodes : List NodeInfo
mieru_nodes = node 1 Protocol.mieru 443 "1000-2000" ∷ node 2 Protocol.mieru 1500 "1400-3000" ∷ []

hysteria_rules-AreUnambiguous_example :
    AreUnambiguous (build_hysteria_port_forward_rules hysteria_nodes).0
hysteria_rules-AreUnambiguous_example = hysteria_rules-AreUnambiguous hysteria_nodes

hysteria_rules-IsUnforwarded_example :
    IsUnforwarded (text "udp") 443 (build_hysteria_port_forward_rules hysteria_nodes).0
hysteria_rules-IsUnforwarded_example =
    hysteria_rules-IsUnforwarded hysteria_nodes (node 1 Protocol.hysteria2 443 "1000-2000")
      (Memᴰ.head refl) refl (omega arith)

tcp_protocol : mieru_port_forward_protocol (text "tcp") ≡ ok (text "tcp")
unfolding mieru_port_forward_protocol trim text_eq to_upper
tcp_protocol = refl

mieru_rules-AreSafe_example :
    AreUnambiguous (build_mieru_port_forward_rules mieru_nodes).0
    × IsUnforwarded (text "tcp") 443 (build_mieru_port_forward_rules mieru_nodes).0
mieru_rules-AreSafe_example =
    mieru_rules-AreSafe mieru_nodes (node 1 Protocol.mieru 443 "1000-2000") (text "tcp")
      (Memᴰ.head refl) refl (omega arith) tcp_protocol

asks_ports : is_empty (asked_ports (node 1 Protocol.hysteria2 443 "1000-2000")) ≡ false
unfolding first_non_empty trim
asks_ports = refl

accepted_ports :
    parse_port_forward_matchers_and_ranges_except
      (asked_ports (node 1 Protocol.hysteria2 443 "1000-2000"))
      443
    ≡ ok (range_matcher 1000 2000 ∷ [], span 1000 2000 ∷ [])
unfolding parse_port_forward_matchers_and_ranges_except parse_port_range first_non_empty trim split
    parse_u32 flush_singles
accepted_ports = refl

no_server_port : is_target 1200 (keys (collect_hysteria_target_ports hysteria_nodes)) ≡ false
unfolding collect_hysteria_target_ports collect
no_server_port = refl

hysteria_rules-Served_example :
    is_forwarded 1200 (build_hysteria_port_forward_rules hysteria_nodes).0 ≡ true
hysteria_rules-Served_example =
    hysteria_rules-Served hysteria_nodes (node 1 Protocol.hysteria2 443 "1000-2000")
      (range_matcher 1000 2000 ∷ []) (span 1000 2000 ∷ []) (Memᴰ.head refl) refl (omega arith)
      asks_ports accepted_ports 1200 refl no_server_port
