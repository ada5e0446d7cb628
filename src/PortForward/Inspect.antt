-- ===== src/PortForward/Inspect.antt =====
-- src/port_forward.rs: the status of the rules of a tool, compared with the expected ones. The
-- trait `PortForwardExecutor` is a record of its methods over the executor's state.
use kelinode_rs.Prelude.{
  ℕ, Bool, true, false, not, ◌&&◌, ◌||◌, List, [], ◌++◌, map, if◌then◌else◌, is_empty, keep, any,
}
use kelinode_rs.Prelude.Text.{Text, text, join}
use kelinode_rs.Prelude.Decimal.{decimal}
use kelinode_rs.Prelude.Result.{Result}
use kelinode_rs.Prelude.Order.{text_ord}
use kelinode_rs.BTreeMap.{BTreeMap, collect, contains_key}
use kelinode_rs.PortForward.{
  PortForwardRule, FirewallAllowRule, PortForwardCommand, hysteria_port_forward_comment,
}
use kelinode_rs.PortForward.Rules.{ForwardError, HysteriaPortForwardPlan}
use kelinode_rs.PortForward.Spec.{
  parse_iptables_spec, port_forward_fields_key, is_hysteria_comment,
  expected_port_forward_spec_fields, expected_firewall_allow_spec_fields,
  expected_hysteria_managed_specs, list_port_forward_specs_from_output,
  list_port_forward_specs_from_output_with_comment, list_firewall_allow_specs_from_output,
  list_firewall_allow_specs_from_output_with_comment,
}

pub record HysteriaPortForwardRuleSpec : Type 0 where
  pub protocol : Text
  pub match_rule : Text
  pub target_port : ℕ
  pub spec : Text

pub record HysteriaPortForwardToolStatus : Type 0 where
  pub tool : Text
  pub available : Bool
  pub current : List Text
  pub expected : List Text
  pub missing : List Text
  pub extra : List Text
  pub stale_chain : Bool
  pub error : Text

-- An error of the builders, or a message.
pub data StatusError : Type 0 where
  unforwarded : ForwardError → StatusError
  message : Text → StatusError

pub record HysteriaPortForwardStatus : Type 0 where
  pub enabled : Bool
  pub running_as_root : Bool
  pub expected_rules : List HysteriaPortForwardRuleSpec
  pub tools : List HysteriaPortForwardToolStatus
  pub errors : List StatusError

pub record PortForwardExecutor (E : Type 0) : Type 0 where
  pub is_tool_available : Text → E → Bool × E
  pub command_output : PortForwardCommand → E → Result Text Text × E
  pub run_command : PortForwardCommand → E → Result Text (Unit {0}) × E
  pub running_as_root : E → Bool

unfoldable pub describe_port_forward_rules : List PortForwardRule → List HysteriaPortForwardRuleSpec
describe_port_forward_rules rules =
    map
      (λ rule. record {
        protocol = rule.protocol;
        match_rule = join (text " ") rule.matcher.args;
        target_port = rule.target_port;
        spec = join (text " ") (expected_port_forward_spec_fields rule);
      })
      rules

unfoldable pub describe_hysteria_managed_rules :
    List PortForwardRule → List FirewallAllowRule → List HysteriaPortForwardRuleSpec
unfolding describe_port_forward_rules
describe_hysteria_managed_rules nat_rules allow_rules =
    describe_port_forward_rules nat_rules
    ++ map
        (λ rule. record {
          protocol = rule.protocol;
          match_rule = text "INPUT --dport " ++ decimal rule.port;
          target_port = rule.port;
          spec = join (text " ") (expected_firewall_allow_spec_fields rule);
        })
        allow_rules

unfoldable pub new_hysteria_port_forward_status :
    List PortForwardRule → List StatusError → Bool → HysteriaPortForwardStatus
unfolding describe_port_forward_rules
new_hysteria_port_forward_status rules errors running_as_root = record {
  enabled = true;
  running_as_root = running_as_root;
  expected_rules = describe_port_forward_rules rules;
  tools = [];
  errors = errors;
}

unfoldable pub new_hysteria_port_forward_status_from_plan :
    HysteriaPortForwardPlan → Bool → HysteriaPortForwardStatus
unfolding describe_hysteria_managed_rules
new_hysteria_port_forward_status_from_plan plan running_as_root = record {
  enabled = true;
  running_as_root = running_as_root;
  expected_rules = describe_hysteria_managed_rules plan.nat_rules plan.allow_rules;
  tools = [];
  errors = map unforwarded plan.errors;
}

unfoldable pub new_mieru_port_forward_status_from_plan :
    HysteriaPortForwardPlan → Bool → HysteriaPortForwardStatus
unfolding describe_hysteria_managed_rules
new_mieru_port_forward_status_from_plan plan running_as_root = record {
  enabled = not (is_empty plan.nat_rules);
  running_as_root = running_as_root;
  expected_rules = describe_hysteria_managed_rules plan.nat_rules plan.allow_rules;
  tools = [];
  errors = map unforwarded plan.errors;
}

unfoldable pub set_hysteria_port_forward_disabled : Bool → HysteriaPortForwardStatus
set_hysteria_port_forward_disabled running_as_root = record {
  enabled = false;
  running_as_root = running_as_root;
  expected_rules = [];
  tools = [];
  errors = [];
}

abbrev pub keyed : Text → Text × Text
keyed spec = (port_forward_fields_key (parse_iptables_spec spec), spec)

abbrev pub keyed_specs : List Text → BTreeMap Text Text
keyed_specs specs = collect (map keyed specs)

-- The specs of the first map whose keys the second one lacks.
abbrev pub specs_without : BTreeMap Text Text → BTreeMap Text Text → List Text
specs_without m other = map (λ kv. kv.1) (keep (λ kv. not (contains_key kv.0 other)) m)

abbrev pub current_specs : Text → Text → Text → List Text
current_specs prerouting_output input_output comment =
    (if not (is_hysteria_comment comment)
      then list_port_forward_specs_from_output_with_comment prerouting_output comment
      else list_port_forward_specs_from_output prerouting_output)
    ++ (if is_hysteria_comment comment
        then list_firewall_allow_specs_from_output input_output
        else list_firewall_allow_specs_from_output_with_comment input_output comment)

unfoldable pub inspect_managed_specs_with_comment :
    Text
    → List PortForwardRule
    → List FirewallAllowRule
    → Text
    → Text
    → Bool
    → Text
    → HysteriaPortForwardToolStatus
inspect_managed_specs_with_comment tool rules allow_rules prerouting_output input_output stale_chain
      comment =
    let current = current_specs prerouting_output input_output comment in
    let expected = expected_hysteria_managed_specs rules allow_rules in
    record {
      tool = tool;
      available = true;
      current = current;
      expected = expected;
      missing = specs_without (keyed_specs expected) (keyed_specs current);
      extra = specs_without (keyed_specs current) (keyed_specs expected);
      stale_chain = stale_chain;
      error = [];
    }

unfoldable pub inspect_hysteria_managed_specs :
    Text
    → List PortForwardRule
    → List FirewallAllowRule
    → Text
    → Text
    → Bool
    → HysteriaPortForwardToolStatus
unfolding inspect_managed_specs_with_comment
inspect_hysteria_managed_specs tool rules allow_rules prerouting_output input_output stale_chain =
    inspect_managed_specs_with_comment tool rules allow_rules prerouting_output input_output
      stale_chain hysteria_port_forward_comment

unfoldable pub inspect_port_forward_specs :
    Text → List PortForwardRule → Text → Bool → HysteriaPortForwardToolStatus
unfolding inspect_hysteria_managed_specs
inspect_port_forward_specs tool rules prerouting_output stale_chain =
    inspect_hysteria_managed_specs tool rules [] prerouting_output [] stale_chain

-- The condition on one tool, which the repairing functions repeat.
abbrev pub differs : HysteriaPortForwardToolStatus → Bool
differs tool =
    is_empty tool.error
    && (not (is_empty tool.missing) || not (is_empty tool.extra) || tool.stale_chain)

unfoldable pub hysteria_port_forward_needs_repair : HysteriaPortForwardStatus → Bool
hysteria_port_forward_needs_repair status =
    any (λ tool. tool.available && differs tool) status.tools
