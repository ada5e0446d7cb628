-- ===== src/PortForward/Managed.antt =====
-- The commands of src/port_forward.rs touch only rules that the node manages.
use kelinode_rs.Prelude.{
  Bool, true, List, [], ◌∷◌, ◌++◌, map, All, All-append, ◌≡◌, arith, if_intro,
}
use mathlib.Core.Path.{subst}
use mathlib.Core.List.{Memᴰ}
use kelinode_rs.Prelude.Text.{Text, text, text_eq_iff, trim, lines}
use kelinode_rs.PortForward.{
  PortForwardRule, FirewallAllowRule, PortForwardCommand, hysteria_port_forward_chain,
  hysteria_port_forward_comment,
}
use kelinode_rs.PortForward.Spec.{
  specs_where, parse_iptables_spec, is_port_forward_rule_spec_with_comment,
  is_firewall_allow_rule_spec_with_comment,
}
use kelinode_rs.PortForward.Commands.{
  command, deletion, drop_chain, add_rule, add_allow_rule,
  delete_port_forward_commands_with_comment, delete_firewall_allow_commands_with_comment,
  delete_port_forward_commands, delete_firewall_allow_commands,
  reconcile_port_forward_commands_with_allow_ports,
}
use kelinode_rs.Prelude.Members.{kept, mapped, All-members, All-map}

-- The fields of a line of what a tool prints.
pub record IsPrinted (output : Text) (fields : List Text) : Type 0 where
  pub line : Text
  pub listed : Memᴰ line (lines output)
  pub parsed : parse_iptables_spec (trim line) ≡ fields

-- The commands that a tool may be given for the rules under a comment, where it prints the two
-- outputs, by which the chain of an earlier version is there or not.
pub data IsOwn (tool comment : Text) (rules : List PortForwardRule)
    (allow_rules : List FirewallAllowRule) (prerouting_output input_output : Text)
    (chain_exists : Bool) : PortForwardCommand → Type 0 where
  deletes_rule :
      (fields : List Text)
      → IsPrinted prerouting_output (text "-A" ∷ fields)
      → is_port_forward_rule_spec_with_comment (text "-A" ∷ fields) comment ≡ true
      → IsOwn tool comment rules allow_rules prerouting_output input_output chain_exists
          (command tool (text "-t" ∷ text "nat" ∷ text "-D" ∷ fields))
  deletes_allow_rule :
      (fields : List Text)
      → IsPrinted input_output (text "-A" ∷ fields)
      → is_firewall_allow_rule_spec_with_comment (text "-A" ∷ fields) comment ≡ true
      → IsOwn tool comment rules allow_rules prerouting_output input_output chain_exists
          (command tool (text "-D" ∷ fields))
  flushes_chain :
      chain_exists ≡ true
      → IsOwn tool comment rules allow_rules prerouting_output input_output chain_exists
          (command tool (text "-t" ∷ text "nat" ∷ text "-F" ∷ hysteria_port_forward_chain ∷ []))
  deletes_chain :
      chain_exists ≡ true
      → IsOwn tool comment rules allow_rules prerouting_output input_output chain_exists
          (command tool (text "-t" ∷ text "nat" ∷ text "-X" ∷ hysteria_port_forward_chain ∷ []))
  adds_rule :
      (rule : PortForwardRule)
      → Memᴰ rule rules
      → IsOwn tool comment rules allow_rules prerouting_output input_output chain_exists
          (add_rule tool rule)
  adds_allow_rule :
      (rule : FirewallAllowRule)
      → Memᴰ rule allow_rules
      → IsOwn tool comment rules allow_rules prerouting_output input_output chain_exists
          (add_allow_rule tool rule)

abbrev IsSpec : (List Text → Bool) → Text → List Text → Type 0
IsSpec test output fields = IsPrinted output fields × (test fields ≡ true)

specs_where-All :
    (test : List Text → Bool) (output : Text) → All (IsSpec test output) (specs_where test output)
unfolding specs_where
specs_where-All test output =
    All-members (IsSpec test output) (specs_where test output) (λ fields m.
      let (among, holds) = kept test _ fields m in
      let (line, listed, parsed) = mapped _ (lines output) fields among in
      (record { line = line; listed = listed; parsed = parsed }, holds))

module _ (tool comment : Text) (rules : List PortForwardRule) (allow_rules : List FirewallAllowRule)
    (prerouting_output input_output : Text) (chain_exists : Bool) where
  abbrev Own : PortForwardCommand → Type 0
  Own = IsOwn tool comment rules allow_rules prerouting_output input_output chain_exists

  deletion-IsOwn :
      (fields : List Text)
      → IsSpec
          (λ fields. is_port_forward_rule_spec_with_comment fields comment)
          prerouting_output
          fields
      → Own (command tool (text "-t" ∷ text "nat" ∷ deletion fields))
  unfolding is_port_forward_rule_spec_with_comment
  deletion-IsOwn [] (_, h) = cc
  deletion-IsOwn (a ∷ []) (_, h) = cc
  deletion-IsOwn (a ∷ b ∷ []) h = cc
  deletion-IsOwn (a ∷ b ∷ c ∷ []) h = cc
  deletion-IsOwn (a ∷ b ∷ c ∷ d ∷ fields) (there, h) =
      let e : a ≡ text "-A" = (text_eq_iff a (text "-A")).0 (ground (arith, h)) in
      deletes_rule (b ∷ c ∷ d ∷ fields)
        (subst (λ x. IsPrinted prerouting_output (x ∷ b ∷ c ∷ d ∷ fields)) e there)
        (subst (λ x. is_port_forward_rule_spec_with_comment (x ∷ b ∷ c ∷ d ∷ fields) comment ≡ true)
          e h)

  allow_deletion-IsOwn :
      (fields : List Text)
      → IsSpec
          (λ fields. is_firewall_allow_rule_spec_with_comment fields comment)
          input_output
          fields
      → Own (command tool (deletion fields))
  unfolding is_firewall_allow_rule_spec_with_comment
  allow_deletion-IsOwn [] (_, h) = cc
  allow_deletion-IsOwn (a ∷ []) (_, h) = cc
  allow_deletion-IsOwn (a ∷ b ∷ []) h = cc
  allow_deletion-IsOwn (a ∷ b ∷ c ∷ []) h = cc
  allow_deletion-IsOwn (a ∷ b ∷ c ∷ d ∷ fields) (there, h) =
      let e : a ≡ text "-A" = (text_eq_iff a (text "-A")).0 (ground (arith, h)) in
      deletes_allow_rule (b ∷ c ∷ d ∷ fields)
        (subst (λ x. IsPrinted input_output (x ∷ b ∷ c ∷ d ∷ fields)) e there)
        (subst
          (λ x. is_firewall_allow_rule_spec_with_comment (x ∷ b ∷ c ∷ d ∷ fields) comment ≡ true) e
          h)

  deletions-IsOwn :
      All Own (delete_port_forward_commands_with_comment tool prerouting_output comment)
  unfolding delete_port_forward_commands_with_comment
  deletions-IsOwn = All-map _ Own _ _ deletion-IsOwn (specs_where-All _ prerouting_output)

  allow_deletions-IsOwn :
      All Own (delete_firewall_allow_commands_with_comment tool input_output comment)
  unfolding delete_firewall_allow_commands_with_comment
  allow_deletions-IsOwn = All-map _ Own _ _ allow_deletion-IsOwn (specs_where-All _ input_output)

  chain-IsOwn : All Own (drop_chain tool chain_exists)
  chain-IsOwn =
      if_intro (All Own) chain_exists (λ h. (flushes_chain h, (deletes_chain h, tt))) (λ _. tt)

  additions-IsOwn : All Own (map (add_rule tool) rules ++ map (add_allow_rule tool) allow_rules)
  additions-IsOwn =
      All-append Own (map (add_rule tool) rules) (map (add_allow_rule tool) allow_rules)
        (All-map _ Own (add_rule tool) rules adds_rule (All-members _ rules (λ r m. m)))
        (All-map _ Own (add_allow_rule tool) allow_rules adds_allow_rule
          (All-members _ allow_rules (λ r m. m)))

-- Whatever a tool prints, each command that reconciles its Hysteria2 rules deletes a rule that is a
-- line of what it printed and that the node manages, drops the chain of an earlier version where
-- there is one, or adds one of the given rules.
pub reconcile_with_allow_ports-IsOwn :
    (tool : Text) (rules : List PortForwardRule) (allow_rules : List FirewallAllowRule)
    (prerouting_output input_output : Text) (chain_exists : Bool)
    → All
        (IsOwn tool hysteria_port_forward_comment rules allow_rules prerouting_output input_output
          chain_exists)
        (reconcile_port_forward_commands_with_allow_ports tool rules allow_rules prerouting_output
          input_output chain_exists)
unfolding reconcile_port_forward_commands_with_allow_ports delete_port_forward_commands
    delete_firewall_allow_commands
reconcile_with_allow_ports-IsOwn tool rules allow_rules prerouting_output input_output
      chain_exists =
    let comment = hysteria_port_forward_comment in
    let Own = IsOwn tool comment rules allow_rules prerouting_output input_output chain_exists in
    All-append Own _ _
      (deletions-IsOwn tool comment rules allow_rules prerouting_output input_output chain_exists)
      (All-append Own _ _
        (allow_deletions-IsOwn tool comment rules allow_rules prerouting_output input_output
          chain_exists)
        (All-append Own _ _
          (chain-IsOwn tool comment rules allow_rules prerouting_output input_output chain_exists)
          (additions-IsOwn tool comment rules allow_rules prerouting_output input_output
            chain_exists)))
