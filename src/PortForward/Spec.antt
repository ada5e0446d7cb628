-- ===== src/PortForward/Spec.antt =====
-- src/port_forward.rs: the fields of a rule as `iptables -S` prints them, and which printed rules
-- the node manages. A loop over adjacent fields is recursion on the fields that are left.
use kelinode_rs.Prelude.{
  ℕ, Bool, false, ◌&&◌, ◌||◌, Option, none, some, List, [], ◌∷◌, ◌++◌, map, ◌==◌, if◌then◌else◌,
  is_empty, keep,
}
use kelinode_rs.Prelude.Text.{Text, text, text_eq, trim, trim_matches, join, lines}
use kelinode_rs.Prelude.Decimal.{decimal}
use kelinode_rs.PortForward.{
  PortForwardRule, FirewallAllowRule, hysteria_port_forward_comment, hysteria_port_forward_chain,
}

abbrev pub is_quote : ℕ → Bool
is_quote c = c == b'"' || c == b'\''

abbrev pub is_blank : ℕ → Bool
is_blank c = c == b' ' || c == 9

-- `trim_matches(|value| value == '"' || value == '\'')`
unfoldable pub trim_quotes : Text → Text
unfolding trim_matches
trim_quotes s = trim_matches is_quote s

-- The variables of the loop of `parse_iptables_spec`, and one round of it.
pub record Scan : Type 0 where
  pub fields : List Text
  pub builder : Text
  pub quote : Option ℕ

abbrev pub push_field : Scan → Scan
push_field s =
    if is_empty s.builder then s else record s { fields = s.fields ++ s.builder ∷ []; builder = [] }

abbrev pub push_character : ℕ → Scan → Scan
push_character c s = record s { builder = s.builder ++ c ∷ [] }

unfoldable pub scan_character : Scan → ℕ → Scan
scan_character s c = elim s.quote [
  | some active_quote ↦ if c == active_quote then record s { quote = none } else push_character c s
  | none ↦
      if is_quote c
      then record s { quote = some c }
      else if is_blank c
      then push_field s
      else push_character c s
]

unfoldable pub scan_characters : Scan → Text → Scan
unfolding scan_character
scan_characters s [] = s
scan_characters s (c ∷ line) = scan_characters (scan_character s c) line

unfoldable pub parse_iptables_spec : Text → List Text
unfolding scan_characters
parse_iptables_spec line =
    (push_field (scan_characters (record { fields = []; builder = []; quote = none }) line)).fields

abbrev pub is_protocol_name : Text → Bool
is_protocol_name value = text_eq value (text "udp") || text_eq value (text "tcp")

-- The field that the loop pushes, after the field before it.
abbrev pub normal_field : Option Text → Text → Text
normal_field none value = value
normal_field (some previous) value =
    if text_eq previous (text "--comment") then trim_quotes value else value

-- The rest of the loop: what it pushes from the field after `previous` on.
unfoldable pub normalize_from : Option Text → List Text → List Text
unfolding trim_quotes
normalize_from previous [] = []
normalize_from previous (field ∷ []) = normal_field previous field ∷ []
normalize_from previous (field ∷ next ∷ fields) =
    let skipped = normalize_from (some next) fields in
    let kept = normalize_from (some field) (next ∷ fields) in
    if text_eq field (text "-m") && is_protocol_name next
    then skipped
    else normal_field previous field ∷ kept

unfoldable pub normalize_port_forward_spec_fields : List Text → List Text
unfolding normalize_from
normalize_port_forward_spec_fields fields = normalize_from none fields

unfoldable pub port_forward_fields_key : List Text → Text
unfolding normalize_port_forward_spec_fields
port_forward_fields_key fields = join (0 ∷ []) (normalize_port_forward_spec_fields fields)

abbrev pub is_hysteria_comment : Text → Bool
is_hysteria_comment comment = text_eq comment hysteria_port_forward_comment

abbrev pub has_comment_at : Text → Text → Text → Bool
has_comment_at comment field next =
    text_eq field (text "--comment") && text_eq (trim_quotes next) comment

-- The loop of `is_port_forward_rule_spec_with_comment` over the fields from the third on.
unfoldable pub names_rule : Text → List Text → Bool
unfolding trim_quotes
names_rule comment [] = false
names_rule comment (field ∷ []) = false
names_rule comment (field ∷ next ∷ fields) =
    is_hysteria_comment comment
      && (text_eq field (text "-j") && text_eq next hysteria_port_forward_chain)
    || (has_comment_at comment field next || names_rule comment (next ∷ fields))

unfoldable pub is_port_forward_rule_spec_with_comment : List Text → Text → Bool
unfolding names_rule
is_port_forward_rule_spec_with_comment (a ∷ b ∷ c ∷ d ∷ fields) comment =
    (text_eq a (text "-A") && text_eq b (text "PREROUTING")) && names_rule comment (c ∷ d ∷ fields)
is_port_forward_rule_spec_with_comment _ comment = false

unfoldable pub is_port_forward_rule_spec : List Text → Bool
unfolding is_port_forward_rule_spec_with_comment
is_port_forward_rule_spec fields =
    is_port_forward_rule_spec_with_comment fields hysteria_port_forward_comment

-- The loop of `is_firewall_allow_rule_spec_with_comment`, its two variables first.
unfoldable pub accepts_rule : Bool → Bool → Text → List Text → Bool
unfolding trim_quotes
accepts_rule has_comment accepts comment [] = has_comment && accepts
accepts_rule has_comment accepts comment (field ∷ []) = has_comment && accepts
accepts_rule has_comment accepts comment (field ∷ next ∷ fields) =
    accepts_rule (has_comment || has_comment_at comment field next)
      (accepts || text_eq field (text "-j") && text_eq next (text "ACCEPT")) comment (next ∷ fields)

unfoldable pub is_firewall_allow_rule_spec_with_comment : List Text → Text → Bool
unfolding accepts_rule
is_firewall_allow_rule_spec_with_comment (a ∷ b ∷ c ∷ d ∷ fields) comment =
    (text_eq a (text "-A") && text_eq b (text "INPUT"))
    && accepts_rule false false comment (c ∷ d ∷ fields)
is_firewall_allow_rule_spec_with_comment _ comment = false

unfoldable pub expected_port_forward_spec_fields : PortForwardRule → List Text
unfolding normalize_port_forward_spec_fields
expected_port_forward_spec_fields rule = normalize_port_forward_spec_fields (
    text "-A"
    ∷ text "PREROUTING"
    ∷ text "-p"
    ∷ rule.protocol
    ∷ (rule.matcher.args
        ++ (text "-m"
            ∷ text "comment"
            ∷ text "--comment"
            ∷ rule.comment
            ∷ text "-j"
            ∷ text "REDIRECT"
            ∷ text "--to-ports"
            ∷ decimal rule.target_port
            ∷ [])))

unfoldable pub expected_firewall_allow_spec_fields : FirewallAllowRule → List Text
unfolding normalize_port_forward_spec_fields
expected_firewall_allow_spec_fields rule = normalize_port_forward_spec_fields (
    text "-A"
    ∷ text "INPUT"
    ∷ text "-p"
    ∷ rule.protocol
    ∷ text "--dport"
    ∷ decimal rule.port
    ∷ text "-m"
    ∷ text "comment"
    ∷ text "--comment"
    ∷ rule.comment
    ∷ text "-j"
    ∷ text "ACCEPT"
    ∷ [])

unfoldable pub expected_port_forward_specs : List PortForwardRule → List Text
unfolding expected_port_forward_spec_fields
expected_port_forward_specs rules =
    map (λ rule. join (text " ") (expected_port_forward_spec_fields rule)) rules

unfoldable pub expected_hysteria_managed_specs :
    List PortForwardRule → List FirewallAllowRule → List Text
unfolding expected_port_forward_specs expected_firewall_allow_spec_fields
expected_hysteria_managed_specs nat_rules allow_rules =
    expected_port_forward_specs nat_rules
    ++ map (λ rule. join (text " ") (expected_firewall_allow_spec_fields rule)) allow_rules

-- The fields of the lines of an output that a test accepts.
unfoldable pub specs_where : (List Text → Bool) → Text → List (List Text)
unfolding parse_iptables_spec
specs_where test output = keep test (map (λ line. parse_iptables_spec (trim line)) (lines output))

abbrev pub spec_text : List Text → Text
spec_text fields = join (text " ") (normalize_port_forward_spec_fields fields)

unfoldable pub list_port_forward_specs_from_output_with_comment : Text → Text → List Text
unfolding specs_where
list_port_forward_specs_from_output_with_comment output comment =
    map spec_text
      (specs_where (λ fields. is_port_forward_rule_spec_with_comment fields comment) output)

unfoldable pub list_port_forward_specs_from_output : Text → List Text
unfolding list_port_forward_specs_from_output_with_comment
list_port_forward_specs_from_output output =
    list_port_forward_specs_from_output_with_comment output hysteria_port_forward_comment

unfoldable pub list_firewall_allow_specs_from_output_with_comment : Text → Text → List Text
unfolding specs_where
list_firewall_allow_specs_from_output_with_comment output comment =
    map spec_text
      (specs_where (λ fields. is_firewall_allow_rule_spec_with_comment fields comment) output)

unfoldable pub list_firewall_allow_specs_from_output : Text → List Text
unfolding list_firewall_allow_specs_from_output_with_comment
list_firewall_allow_specs_from_output output =
    list_firewall_allow_specs_from_output_with_comment output hysteria_port_forward_comment
