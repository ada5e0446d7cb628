-- ===== src/PortForward/CommandTests.antt =====
-- The iptables part of src/port_forward.rs at small inputs, and the theorems at inputs that meet
-- their hypotheses. The executor below keeps the commands that it was given.
use kelinode_rs.Prelude.{
  none, Bool, true, false, ◌&&◌, List, [], ◌∷◌, ◌++◌, map, is_empty, ◌≡◌, ◌↔◌, refl, All, arith,
}
use kelinode_rs.Prelude.Text.{
  Text, text, join, lines, split, text_eq, trim, trim_matches, trim_end, trim_start, is_whitespace,
}
use kelinode_rs.Prelude.Result.{ok}
use kelinode_rs.Panel.{Protocol, NodeInfo}
use kelinode_rs.PortForward.{
  PortForwardRule, PortForwardCommand, FirewallAllowRule, range_matcher,
  hysteria_port_forward_comment,
}
use kelinode_rs.PortForward.Spec.{
  parse_iptables_spec, scan_characters, scan_character, is_port_forward_rule_spec_with_comment,
  names_rule, trim_quotes, specs_where,
}
use kelinode_rs.PortForward.Commands.{
  command, deletion, add_rule, delete_port_forward_commands,
  delete_port_forward_commands_with_comment, reconcile_port_forward_commands_with_allow_ports,
}
use kelinode_rs.PortForward.Inspect.{PortForwardExecutor, inspect_managed_specs_with_comment}
use kelinode_rs.PortForward.Repair.{
  repair_hysteria_port_forward, cleanup_hysteria_port_forward, repair_mieru_port_forward,
}
use kelinode_rs.PortForward.Fields.{IsPlain, parse_iptables_spec-join}
use kelinode_rs.PortForward.Managed.{IsOwn, reconcile_with_allow_ports-IsOwn}
use kelinode_rs.PortForward.Added.{shown, add_rule-IsDeleted}
use kelinode_rs.Prelude.Decimal.{decimal}
use mathlib.Core.List.{Memᴰ}
use kelinode_rs.PortForward.Difference.{has_key, inspect_managed_specs-settled}
use kelinode_rs.PortForward.Unprivileged.{RunsNothing, unprivileged-RunsNothing}

abbrev rule : PortForwardRule
rule = record {
  matcher = range_matcher 1000 2000;
  target_port = 443;
  protocol = text "udp";
  comment = hysteria_port_forward_comment;
}

abbrev allow : FirewallAllowRule
allow = record { protocol = text "udp"; port = 443; comment = hysteria_port_forward_comment }

-- A foreign rule and a managed one, as `iptables -S` prints them.
abbrev output : Text
output =
    text
      "-A PREROUTING -p tcp -j ACCEPT\n-A PREROUTING -p udp -m udp --dport 1000:2000 -m comment --comment V2NODE-HY2 -j REDIRECT --to-ports 443\n"

deletes_the_managed :
    map (λ c. c.args) (delete_port_forward_commands (text "iptables") output)
    ≡ (text "-t"
        ∷ text "nat"
        ∷ text "-D"
        ∷ text "PREROUTING"
        ∷ text "-p"
        ∷ text "udp"
        ∷ text "-m"
        ∷ text "udp"
        ∷ text "--dport"
        ∷ text "1000:2000"
        ∷ text "-m"
        ∷ text "comment"
        ∷ text "--comment"
        ∷ text "V2NODE-HY2"
        ∷ text "-j"
        ∷ text "REDIRECT"
        ∷ text "--to-ports"
        ∷ text "443"
        ∷ [])
      ∷ []
unfolding delete_port_forward_commands delete_port_forward_commands_with_comment specs_where
    parse_iptables_spec scan_characters scan_character is_port_forward_rule_spec_with_comment
    names_rule trim_quotes trim_matches lines split trim text_eq trim_end trim_start is_whitespace
deletes_the_managed = refl

abbrev words : List Text
words = text "-A" ∷ text "PREROUTING" ∷ text "-p" ∷ text "udp" ∷ []

words-IsPlain : All IsPlain words
words-IsPlain = ((refl, refl), ((refl, refl), ((refl, refl), ((refl, refl), tt))))

parse_iptables_spec-join_example : parse_iptables_spec (join (text " ") words) ≡ words
parse_iptables_spec-join_example = parse_iptables_spec-join words words-IsPlain

reconcile_with_allow_ports-IsOwn_example :
    All
      (IsOwn
        (text "iptables")
        hysteria_port_forward_comment
        (rule ∷ [])
        (allow ∷ [])
        output
        []
        true)
      (reconcile_port_forward_commands_with_allow_ports
        (text "iptables")
        (rule ∷ [])
        (allow ∷ [])
        output
        []
        true)
reconcile_with_allow_ports-IsOwn_example =
    reconcile_with_allow_ports-IsOwn (text "iptables") (rule ∷ []) (allow ∷ []) output [] true

comment_unquoted : trim_quotes hysteria_port_forward_comment ≡ hysteria_port_forward_comment
unfolding trim_quotes trim_matches trim_end trim_start
comment_unquoted = refl

-- The fields of the rule, with the match that `iptables` puts after the protocol.
abbrev shown_rule : List Text
shown_rule = shown (text "-m" ∷ text "udp" ∷ []) (add_rule (text "iptables") rule)

shown_rule-IsPlain : All IsPlain shown_rule
unfolding add_rule range_matcher decimal
shown_rule-IsPlain = ground arith

-- The second line of the output.
abbrev shown_line : Text
shown_line =
    text
      "-A PREROUTING -p udp -m udp --dport 1000:2000 -m comment --comment V2NODE-HY2 -j REDIRECT --to-ports 443"

shown_line-listed : Memᴰ shown_line (lines output)
unfolding lines split
shown_line-listed = Memᴰ.tail (Memᴰ.head refl)

shown_line-joined : trim shown_line ≡ join (text " ") shown_rule
unfolding trim trim_matches trim_end trim_start is_whitespace join add_rule range_matcher decimal
shown_line-joined = refl

add_rule-IsDeleted_example :
    Memᴰ (command (text "iptables") (text "-t" ∷ text "nat" ∷ deletion shown_rule)) (
      delete_port_forward_commands_with_comment
        (text "iptables")
        output
        hysteria_port_forward_comment)
add_rule-IsDeleted_example =
    add_rule-IsDeleted (text "iptables") rule (text "-m" ∷ text "udp" ∷ []) output shown_line
      comment_unquoted shown_rule-IsPlain shown_line-listed shown_line-joined

inspect_managed_specs-settled_example :
    let status =
      inspect_managed_specs_with_comment
        (text "iptables")
        (rule ∷ [])
        []
        output
        []
        false
        hysteria_port_forward_comment in
    ((is_empty status.missing && is_empty status.extra) ≡ true)
    ↔ ((k : Text) → has_key k status.expected ≡ has_key k status.current)
inspect_managed_specs-settled_example =
    inspect_managed_specs-settled (text "iptables") (rule ∷ []) [] output [] false
      hysteria_port_forward_comment

-- Every tool is there and prints nothing; the state is the commands run.
abbrev recorder : Bool → PortForwardExecutor (List PortForwardCommand)
recorder root = record {
  is_tool_available = λ tool e. (true, e);
  command_output = λ c e. (ok [], e);
  run_command = λ c e. (ok tt, e ++ c ∷ []);
  running_as_root = λ e. root;
}

abbrev nodes : List NodeInfo
nodes =
    record {
      id = 1;
      tag = [];
      protocol = Protocol.hysteria2;
      common = record {
        server_port = 443;
        port = text "1000-2000";
        ports = [];
        transport = [];
        base_config = none;
      };
    }
    ∷ []

unprivileged-RunsNothing_example :
    RunsNothing (λ x. repair_hysteria_port_forward x nodes) (recorder false) []
    × RunsNothing (λ x. repair_mieru_port_forward x nodes) (recorder false) []
    × RunsNothing cleanup_hysteria_port_forward (recorder false) []
unprivileged-RunsNothing_example = unprivileged-RunsNothing (recorder false) [] nodes refl

abbrev first_two : List PortForwardCommand
first_two = command (text "iptables") [] ∷ command (text "ip6tables") [] ∷ []
