-- ===== src/PortForward/Rules.antt =====
-- src/port_forward.rs: the rule builders for Hysteria2 and Mieru nodes. Both carry the vectors of
-- their loop as one record; a message that the code pushes to `errors` is a `ForwardError`.
use kelinode_rs.Prelude.{
  ℕ, Bool, true, false, not, ◌||◌, Option, none, some, List, [], ◌∷◌, ◌++◌, map, ltb, ◌==◌,
  if◌then◌else◌, is_empty, keep,
}
use kelinode_rs.Prelude.Text.{Text, text, text_eq, trim, join, to_upper}
use kelinode_rs.Prelude.Decimal.{decimal}
use kelinode_rs.Prelude.Result.{Result, ok, err}
use kelinode_rs.Prelude.Order.{text_ord, nat_ord}
use kelinode_rs.BTreeMap.{BTreeMap, get, insert, collect, contains_key, keys}
use kelinode_rs.Panel.{Protocol, NodeInfo}
use kelinode_rs.PortForward.{
  PortForwardMatcher, PortForwardRule, PortForwardRange, AllocatedPortForwardRange,
  FirewallAllowRule, hysteria_port_forward_comment, mieru_port_forward_comment, first_non_empty,
  trim_target_port_conflicts, trim_allocated_range_conflicts, port_forward_matchers_from_ranges,
}
use kelinode_rs.PortForward.Parse.{PortError, parse_port_forward_matchers_and_ranges_except}

pub data ForwardError : Type 0 where
  invalid_server_port : ℕ → ℕ → ForwardError
  invalid_port_list : ℕ → Text → PortError → ForwardError
  invalid_transport : ℕ → Text → ForwardError
  fully_covered : ℕ → Text → ForwardError

-- The vectors and the set of the builders' loops.
pub record Building : Type 0 where
  pub rules : List PortForwardRule
  pub errors : List ForwardError
  pub seen : BTreeMap Text (Unit {0})
  pub allocated : List AllocatedPortForwardRange

abbrev pub nothing_built : Building
nothing_built = record { rules = []; errors = []; seen = []; allocated = [] }

abbrev pub fail : ForwardError → Building → Building
fail e b = record b { errors = b.errors ++ e ∷ [] }

abbrev pub is_hysteria2 : Protocol → Bool
is_hysteria2 Protocol.hysteria2 = true
is_hysteria2 _ = false

abbrev pub is_mieru : Protocol → Bool
is_mieru Protocol.mieru = true
is_mieru _ = false

abbrev pub server_port_of : NodeInfo → ℕ × ℕ
server_port_of info = (info.common.server_port, info.id)

unfoldable pub collect_hysteria_target_ports : List NodeInfo → BTreeMap ℕ ℕ
collect_hysteria_target_ports infos = collect (
    map server_port_of
      (keep (λ i. ltb 0 i.common.server_port) (keep (λ i. is_hysteria2 i.protocol) infos)))

-- The transport's protocol; the error holds the upper-case text.
unfoldable pub mieru_port_forward_protocol : Text → Result Text Text
mieru_port_forward_protocol raw =
    let value = trim raw in
    let upper = map to_upper value in
    if is_empty value
    then ok (text "tcp")
    else if text_eq upper (text "TCP")
    then ok (text "tcp")
    else if text_eq upper (text "UDP")
    then ok (text "udp")
    else err upper

abbrev pub or_empty : Option (BTreeMap ℕ ℕ) → BTreeMap ℕ ℕ
or_empty none = []
or_empty (some m) = m

-- One round of the loop of `collect_mieru_target_ports_by_protocol`.
unfoldable pub add_mieru_target :
    BTreeMap Text (BTreeMap ℕ ℕ) → NodeInfo → BTreeMap Text (BTreeMap ℕ ℕ)
add_mieru_target out info =
    if not (is_mieru info.protocol) || info.common.server_port == 0
    then out
    else elim (mieru_port_forward_protocol info.common.transport) [
      | err _ ↦ out
      | ok protocol ↦
          insert protocol (insert info.common.server_port info.id (or_empty (get protocol out))) out
    ]

unfoldable pub add_mieru_targets :
    BTreeMap Text (BTreeMap ℕ ℕ) → List NodeInfo → BTreeMap Text (BTreeMap ℕ ℕ)
unfolding add_mieru_target
add_mieru_targets out [] = out
add_mieru_targets out (info ∷ infos) = add_mieru_targets (add_mieru_target out info) infos

unfoldable pub collect_mieru_target_ports_by_protocol : List NodeInfo → BTreeMap Text (BTreeMap ℕ ℕ)
unfolding add_mieru_targets
collect_mieru_target_ports_by_protocol infos = add_mieru_targets [] infos

-- What the two builders do alike with the ranges that are left: `for range in ranges` and
-- `for matcher in matchers`. `prefix` stands before the target port in the key of `seen`.
module _ (id target_port : ℕ) (protocol comment prefix : Text) where
  unfoldable pub allocate : PortForwardRange → AllocatedPortForwardRange
  allocate range = record {
    node_id = id;
    target_port = target_port;
    protocol = protocol;
    range = range;
  }

  abbrev pub rule_key : PortForwardMatcher → Text
  rule_key matcher = prefix ++ (decimal target_port ++ (b'|' ∷ join (0 ∷ []) matcher.args))

  unfoldable pub push_matcher : Building → PortForwardMatcher → Building
  push_matcher b matcher = if contains_key (rule_key matcher) b.seen then b else record b {
    seen = insert (rule_key matcher) tt b.seen;
    rules =
        b.rules
        ++ record {
          matcher = matcher;
          target_port = target_port;
          protocol = protocol;
          comment = comment;
        }
          ∷ [];
  }

  unfoldable pub push_matchers : Building → List PortForwardMatcher → Building
  unfolding push_matcher
  push_matchers b [] = b
  push_matchers b (matcher ∷ matchers) = push_matchers (push_matcher b matcher) matchers

  unfoldable pub forward_ranges : Building → List PortForwardRange → Building
  unfolding push_matchers allocate
  forward_ranges b ranges =
      push_matchers (record b { allocated = b.allocated ++ map allocate ranges })
        (port_forward_matchers_from_ranges ranges)

-- From the text of the ports on, for a protocol and the server ports of its nodes.
unfoldable pub forward_ports : NodeInfo → Text → Text → Text → List ℕ → Text → Building → Building
unfolding forward_ranges
forward_ports info protocol comment prefix target_ports external_port b =
    let target_port = info.common.server_port in
    elim (parse_port_forward_matchers_and_ranges_except external_port target_port) [
      | err e ↦ fail (invalid_port_list info.id external_port e) b
      | ok (_, ranges) ↦
          let trimmed =
            trim_allocated_range_conflicts
              (trim_target_port_conflicts ranges target_port target_ports) target_port protocol
              b.allocated in
          if is_empty ranges
          then b
          else if is_empty trimmed
          then fail (fully_covered info.id external_port) b
          else forward_ranges info.id target_port protocol comment prefix b trimmed
    ]

unfoldable pub hysteria_node : BTreeMap ℕ ℕ → Building → NodeInfo → Building
unfolding forward_ports
hysteria_node target_ports b info =
    let external_port = first_non_empty (trim info.common.port) (trim info.common.ports) in
    if not (is_hysteria2 info.protocol)
    then b
    else if info.common.server_port == 0
    then fail (invalid_server_port info.id info.common.server_port) b
    else if is_empty external_port
    then b
    else forward_ports info (text "udp") hysteria_port_forward_comment [] (keys target_ports)
        external_port b

unfoldable pub hysteria_nodes : BTreeMap ℕ ℕ → Building → List NodeInfo → Building
unfolding hysteria_node
hysteria_nodes target_ports b [] = b
hysteria_nodes target_ports b (info ∷ infos) =
    hysteria_nodes target_ports (hysteria_node target_ports b info) infos

unfoldable pub build_hysteria_port_forward_rules :
    List NodeInfo → List PortForwardRule × List ForwardError
unfolding hysteria_nodes
build_hysteria_port_forward_rules infos =
    let b = hysteria_nodes (collect_hysteria_target_ports infos) nothing_built infos in
    (b.rules, b.errors)

unfoldable pub mieru_node : BTreeMap Text (BTreeMap ℕ ℕ) → Building → NodeInfo → Building
unfolding forward_ports
mieru_node target_ports b info =
    let external_port = first_non_empty (trim info.common.ports) (trim info.common.port) in
    let forwarded = elim (mieru_port_forward_protocol info.common.transport) as (λ _. Building) [
      | err e ↦ fail (invalid_transport info.id e) b
      | ok protocol ↦
          forward_ports info protocol mieru_port_forward_comment (protocol ++ (b'|' ∷ []))
            (keys (or_empty (get protocol target_ports))) external_port b
    ] in
    if not (is_mieru info.protocol)
    then b
    else if info.common.server_port == 0
    then fail (invalid_server_port info.id info.common.server_port) b
    else if is_empty external_port
    then b
    else forwarded

unfoldable pub mieru_nodes : BTreeMap Text (BTreeMap ℕ ℕ) → Building → List NodeInfo → Building
unfolding mieru_node
mieru_nodes target_ports b [] = b
mieru_nodes target_ports b (info ∷ infos) =
    mieru_nodes target_ports (mieru_node target_ports b info) infos

unfoldable pub build_mieru_port_forward_rules :
    List NodeInfo → List PortForwardRule × List ForwardError
unfolding mieru_nodes
build_mieru_port_forward_rules infos =
    let b = mieru_nodes (collect_mieru_target_ports_by_protocol infos) nothing_built infos in
    (b.rules, b.errors)

pub record HysteriaPortForwardPlan : Type 0 where
  pub nat_rules : List PortForwardRule
  pub allow_rules : List FirewallAllowRule
  pub errors : List ForwardError

unfoldable pub build_hysteria_port_forward_plan : List NodeInfo → HysteriaPortForwardPlan
unfolding build_hysteria_port_forward_rules
build_hysteria_port_forward_plan infos =
    let (nat_rules, errors) = build_hysteria_port_forward_rules infos in
    record {
      nat_rules = nat_rules;
      allow_rules =
          map
            (λ port. record {
              protocol = text "udp";
              port = port;
              comment = hysteria_port_forward_comment;
            })
            (keys (collect_hysteria_target_ports infos));
      errors = errors;
    }
