-- ===== src/PortForward/Commands.antt =====
-- src/port_forward.rs: the iptables commands that bring a tool's rules to the expected ones.
use kelinode_rs.Prelude.{Bool, List, [], ◌∷◌, ◌++◌, map, if◌then◌else◌}
use kelinode_rs.Prelude.Text.{Text, text}
use kelinode_rs.Prelude.Decimal.{decimal}
use kelinode_rs.PortForward.{
  PortForwardRule, FirewallAllowRule, PortForwardCommand, hysteria_port_forward_comment,
  hysteria_port_forward_chain,
}
use kelinode_rs.PortForward.Spec.{
  specs_where, is_port_forward_rule_spec_with_comment, is_firewall_allow_rule_spec_with_comment,
}

abbrev pub command : Text → List Text → PortForwardCommand
command tool args = record { tool = tool; args = args }

-- `fields[0] = "-D"`
abbrev pub deletion : List Text → List Text
deletion [] = []
deletion (field ∷ fields) = text "-D" ∷ fields

unfoldable pub delete_port_forward_commands_with_comment :
    Text → Text → Text → List PortForwardCommand
unfolding specs_where
delete_port_forward_commands_with_comment tool prerouting_output comment =
    map (λ fields. command tool (text "-t" ∷ text "nat" ∷ deletion fields))
      (specs_where (λ fields. is_port_forward_rule_spec_with_comment fields comment)
        prerouting_output)

unfoldable pub delete_port_forward_commands : Text → Text → List PortForwardCommand
unfolding delete_port_forward_commands_with_comment
delete_port_forward_commands tool prerouting_output =
    delete_port_forward_commands_with_comment tool prerouting_output hysteria_port_forward_comment

unfoldable pub delete_firewall_allow_commands_with_comment :
    Text → Text → Text → List PortForwardCommand
unfolding specs_where
delete_firewall_allow_commands_with_comment tool input_output comment =
    map (λ fields. command tool (deletion fields))
      (specs_where (λ fields. is_firewall_allow_rule_spec_with_comment fields comment) input_output)

unfoldable pub delete_firewall_allow_commands : Text → Text → List PortForwardCommand
unfolding delete_firewall_allow_commands_with_comment
delete_firewall_allow_commands tool input_output =
    delete_firewall_allow_commands_with_comment tool input_output hysteria_port_forward_comment

-- The commands that flush and delete the chain of an earlier version.
abbrev pub drop_chain : Text → Bool → List PortForwardCommand
drop_chain tool chain_exists =
    if chain_exists
    then command tool (text "-t" ∷ text "nat" ∷ text "-F" ∷ hysteria_port_forward_chain ∷ [])
      ∷ command tool (text "-t" ∷ text "nat" ∷ text "-X" ∷ hysteria_port_forward_chain ∷ [])
      ∷ []
    else []

-- The rounds of the two `for` loops that the reconciling functions share.
unfoldable pub add_rule : Text → PortForwardRule → PortForwardCommand
add_rule tool rule = command tool (
    text "-t"
    ∷ text "nat"
    ∷ text "-A"
    ∷ text "PREROUTING"
    ∷ text "-p"
    ∷ rule.protocol
    ∷ (rule.matcher.args
        ++ (text "-m"
            ∷ text "comment"
            ∷ text "--comment"
            ∷ rule.comment
            ∷ text "-j"
            ∷ text "REDIRECT"
            ∷ text "--to-ports"
            ∷ decimal rule.target_port
            ∷ [])))

unfoldable pub add_allow_rule : Text → FirewallAllowRule → PortForwardCommand
add_allow_rule tool rule = command tool (
    text "-I"
    ∷ text "INPUT"
    ∷ text "-p"
    ∷ rule.protocol
    ∷ text "--dport"
    ∷ decimal rule.port
    ∷ text "-m"
    ∷ text "comment"
    ∷ text "--comment"
    ∷ rule.comment
    ∷ text "-j"
    ∷ text "ACCEPT"
    ∷ [])

unfoldable pub reconcile_port_forward_commands_with_allow_ports :
    Text
    → List PortForwardRule
    → List FirewallAllowRule
    → Text
    → Text
    → Bool
    → List PortForwardCommand
unfolding delete_port_forward_commands delete_firewall_allow_commands add_rule add_allow_rule
reconcile_port_forward_commands_with_allow_ports tool rules allow_rules prerouting_output
      input_output chain_exists =
    delete_port_forward_commands tool prerouting_output
    ++ (delete_firewall_allow_commands tool input_output
        ++ (drop_chain tool chain_exists
            ++ (map (add_rule tool) rules ++ map (add_allow_rule tool) allow_rules)))

unfoldable pub reconcile_port_forward_commands :
    Text → List PortForwardRule → Text → Bool → List PortForwardCommand
unfolding reconcile_port_forward_commands_with_allow_ports
reconcile_port_forward_commands tool rules prerouting_output chain_exists =
    reconcile_port_forward_commands_with_allow_ports tool rules [] prerouting_output [] chain_exists

unfoldable pub reconcile_port_forward_commands_for_comment :
    Text
    → List PortForwardRule
    → List FirewallAllowRule
    → Text
    → Text
    → Text
    → List PortForwardCommand
unfolding delete_port_forward_commands_with_comment delete_firewall_allow_commands_with_comment
    add_rule add_allow_rule
reconcile_port_forward_commands_for_comment tool rules allow_rules prerouting_output input_output
      comment =
    delete_port_forward_commands_with_comment tool prerouting_output comment
    ++ (delete_firewall_allow_commands_with_comment tool input_output comment
        ++ (map (add_rule tool) rules ++ map (add_allow_rule tool) allow_rules))

unfoldable pub cleanup_port_forward_commands_with_filter :
    Text → Text → Text → Bool → List PortForwardCommand
unfolding delete_port_forward_commands delete_firewall_allow_commands
cleanup_port_forward_commands_with_filter tool prerouting_output input_output chain_exists =
    delete_port_forward_commands tool prerouting_output
    ++ (delete_firewall_allow_commands tool input_output ++ drop_chain tool chain_exists)

unfoldable pub cleanup_port_forward_commands : Text → Text → Bool → List PortForwardCommand
unfolding cleanup_port_forward_commands_with_filter
cleanup_port_forward_commands tool prerouting_output chain_exists =
    cleanup_port_forward_commands_with_filter tool prerouting_output [] chain_exists
