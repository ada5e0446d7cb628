-- ===== src/PortForward/Served.antt =====
-- That the Hysteria2 builder of src/port_forward.rs serves every node: the external ports that a
-- node asks for are forwarded, by its own rules or by those of an earlier node.
use kelinode_rs.Prelude.{
  ℕ, ◌<◌, true, false, not, List, [], ◌∷◌, ◌==◌, is_empty, ◌≡◌, refl, arith, if_intro,
}
use mathlib.Core.Path.{subst}
use mathlib.Core.List.{Memᴰ}
use kelinode_rs.Prelude.Text.{Text, trim}
use kelinode_rs.Prelude.Result.{ok}
use kelinode_rs.Prelude.Order.{text_ord, nat_ord}
use kelinode_rs.BTreeMap.{BTreeMap, get, keys}
use kelinode_rs.Panel.{NodeInfo}
use kelinode_rs.PortForward.{PortForwardMatcher, PortForwardRange, first_non_empty}
use kelinode_rs.PortForward.Ranges.{covers, foreign}
use kelinode_rs.PortForward.Parse.{parse_port_forward_matchers_and_ranges_except}
use kelinode_rs.PortForward.Rules.{
  Building, nothing_built, is_hysteria2, hysteria_node, hysteria_nodes,
  collect_hysteria_target_ports, build_hysteria_port_forward_rules,
}
use kelinode_rs.PortForward.Building.{is_target}
use kelinode_rs.PortForward.Complete.{is_forwarded, IsComplete}
use kelinode_rs.PortForward.ServedPorts.{
  Keeps, same-Keeps, fail-Keeps, forward_ports-Keeps, forward_ports_forwards,
}

-- The text of the external ports that a Hysteria2 node asks for.
abbrev pub asked_ports : NodeInfo → Text
asked_ports info = first_non_empty (trim info.common.port) (trim info.common.ports)

not_target_not_foreign :
    (port target : ℕ) (ports : List ℕ)
    → is_target port ports ≡ false
    → foreign port target ports ≡ false
not_target_not_foreign port target [] h = refl
not_target_not_foreign port target (p ∷ ports) h =
    ground (arith, not_target_not_foreign port target ports)

module _ (target_ports : BTreeMap ℕ ℕ) where
  node-Keeps :
      (b : Building) (info : NodeInfo) → IsComplete b → Keeps b (hysteria_node target_ports b info)
  unfolding hysteria_node
  node-Keeps b info inv =
      let Q = Keeps b in
      if_intro Q (not (is_hysteria2 info.protocol)) (λ _. same-Keeps b inv)
        λ _.
          if_intro Q (info.common.server_port == 0) (λ _. fail-Keeps _ b inv)
            λ _.
              if_intro Q (is_empty (asked_ports info)) (λ _. same-Keeps b inv)
                λ _. forward_ports-Keeps info (keys target_ports) b inv (asked_ports info)

  nodes-Keeps :
      (b : Building) (infos : List NodeInfo)
      → IsComplete b
      → Keeps b (hysteria_nodes target_ports b infos)
  unfolding hysteria_nodes
  nodes-Keeps b [] inv = same-Keeps b inv
  nodes-Keeps b (info ∷ infos) inv =
      let first = node-Keeps b info inv in
      let rest = nodes-Keeps (hysteria_node target_ports b info) infos first.0 in
      (rest.0, λ port h. rest.1 port (first.1 port h))

  module _ (info : NodeInfo) (ms : List PortForwardMatcher) (ranges : List PortForwardRange)
      (hysteria : is_hysteria2 info.protocol ≡ true) (positive : 0 < info.common.server_port)
      (asks : is_empty (asked_ports info) ≡ false)
      (accepted : parse_port_forward_matchers_and_ranges_except
          (asked_ports info)
          info.common.server_port
        ≡ ok (ms, ranges))
      (port : ℕ) (covered : covers port ranges ≡ true)
      (clear : is_target port (keys target_ports) ≡ false) where
    node_forwards :
        (b : Building)
        → IsComplete b
        → is_forwarded port (hysteria_node target_ports b info).rules ≡ true
    unfolding hysteria_node
    node_forwards b inv =
        let Q = λ (x : Building). is_forwarded port x.rules ≡ true in
        if_intro Q (not (is_hysteria2 info.protocol)) (λ e. cc)
          λ _.
            if_intro Q (info.common.server_port == 0) (λ e. absurd (ground arith))
              λ _.
                if_intro Q (is_empty (asked_ports info)) (λ e. cc)
                  λ _.
                    forward_ports_forwards info (keys target_ports) b inv (asked_ports info) ms
                      ranges accepted port covered
                      (not_target_not_foreign port info.common.server_port (keys target_ports)
                        clear)

    nodes_forward :
        (b : Building) (infos : List NodeInfo)
        → Memᴰ info infos
        → IsComplete b
        → is_forwarded port (hysteria_nodes target_ports b infos).rules ≡ true
    unfolding hysteria_nodes
    nodes_forward b [] m inv = elim m [ ]
    nodes_forward b (i ∷ infos) (Memᴰ.head e) inv =
        (nodes-Keeps (hysteria_node target_ports b i) infos (node-Keeps b i inv).0).1 port (
          subst (λ x. is_forwarded port (hysteria_node target_ports b x).rules ≡ true) e
            (node_forwards b inv))
    nodes_forward b (i ∷ infos) (Memᴰ.tail m) inv =
        nodes_forward (hysteria_node target_ports b i) infos m (node-Keeps b i inv).0

nothing_built-IsComplete : IsComplete nothing_built
unfolding get
nothing_built-IsComplete = record { ours = tt; listed = λ key h. cc; served = λ port t h. cc }

-- For every list of nodes, if a Hysteria2 node of the list with a positive server port asks for
-- external ports and its port list is accepted, each port that the list covers and that is no server
-- port of a Hysteria2 node is matched by some Hysteria2 rule for UDP.
pub hysteria_rules-Served :
    (infos : List NodeInfo) (info : NodeInfo) (ms : List PortForwardMatcher)
    (ranges : List PortForwardRange)
    → Memᴰ info infos
    → is_hysteria2 info.protocol ≡ true
    → 0 < info.common.server_port
    → is_empty (asked_ports info) ≡ false
    → parse_port_forward_matchers_and_ranges_except (asked_ports info) info.common.server_port
      ≡ ok (ms, ranges)
    → (port : ℕ) → covers port ranges ≡ true
    → is_target port (keys (collect_hysteria_target_ports infos)) ≡ false
    → is_forwarded port (build_hysteria_port_forward_rules infos).0 ≡ true
unfolding build_hysteria_port_forward_rules
hysteria_rules-Served infos info ms ranges m hysteria positive asks accepted port covered clear =
    nodes_forward (collect_hysteria_target_ports infos) info ms ranges hysteria positive asks
      accepted port covered clear nothing_built infos m nothing_built-IsComplete
