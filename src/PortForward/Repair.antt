-- ===== src/PortForward/Repair.antt =====
-- src/port_forward.rs: inspecting, repairing and cleaning up the rules of both tools.
use kelinode_rs.Prelude.{Bool, true, not, ◌&&◌, ◌||◌, List, [], ◌∷◌, ◌++◌, if◌then◌else◌, is_empty}
use kelinode_rs.Prelude.Text.{Text, text}
use kelinode_rs.Prelude.Decimal.{decimal}
use kelinode_rs.Prelude.Result.{Result, ok, err, is_ok}
use kelinode_rs.Prelude.Order.{text_ord}
use kelinode_rs.BTreeMap.{BTreeMap, insert, contains_key}
use kelinode_rs.Panel.{NodeInfo}
use kelinode_rs.PortForward.{
  PortForwardRule, FirewallAllowRule, PortForwardCommand, mieru_port_forward_comment,
}
use kelinode_rs.PortForward.Rules.{
  HysteriaPortForwardPlan, build_hysteria_port_forward_plan, build_mieru_port_forward_rules,
}
use kelinode_rs.PortForward.Commands.{
  reconcile_port_forward_commands_with_allow_ports, reconcile_port_forward_commands_for_comment,
  cleanup_port_forward_commands_with_filter,
}
use kelinode_rs.PortForward.Inspect.{
  HysteriaPortForwardToolStatus, HysteriaPortForwardStatus, message, PortForwardExecutor, differs,
  new_hysteria_port_forward_status_from_plan, new_mieru_port_forward_status_from_plan,
  set_hysteria_port_forward_disabled, hysteria_port_forward_needs_repair,
}
use kelinode_rs.PortForward.Tools.{
  list_prerouting, list_input, list_chain, inspect_port_forward_tool,
  inspect_port_forward_tool_with_allow_rules, inspect_port_forward_tool_with_comment,
}

abbrev pub hysteria_port_forward_tools : List Text
hysteria_port_forward_tools = text "iptables" ∷ text "ip6tables" ∷ []

-- The closure of `build_mieru_port_forward_plan`, over the rules that are left.
unfoldable pub mieru_allow_rules :
    BTreeMap Text (Unit {0}) → List PortForwardRule → List FirewallAllowRule
mieru_allow_rules seen [] = []
mieru_allow_rules seen (rule ∷ rules) =
    let key = rule.protocol ++ (b'|' ∷ (decimal rule.target_port ++ (b'|' ∷ rule.comment))) in
    let rest = mieru_allow_rules (insert key tt seen) rules in
    if contains_key key seen
    then rest
    else record { protocol = rule.protocol; port = rule.target_port; comment = rule.comment } ∷ rest

unfoldable pub build_mieru_port_forward_plan : List NodeInfo → HysteriaPortForwardPlan
unfolding mieru_allow_rules
build_mieru_port_forward_plan infos =
    let (nat_rules, errors) = build_mieru_port_forward_rules infos in
    record { nat_rules = nat_rules; allow_rules = mieru_allow_rules [] nat_rules; errors = errors }

unfoldable pub new_mieru_port_forward_status : List NodeInfo → Bool → HysteriaPortForwardStatus
new_mieru_port_forward_status infos running_as_root =
    new_mieru_port_forward_status_from_plan (build_mieru_port_forward_plan infos) running_as_root

-- `unwrap_or_default`
abbrev pub or_default : Result Text Text → Text
or_default (ok output) = output
or_default (err _) = []

abbrev pub push_error : Text → HysteriaPortForwardStatus → HysteriaPortForwardStatus
push_error e status = record status { errors = status.errors ++ message e ∷ [] }

abbrev pub push_tool :
    HysteriaPortForwardToolStatus → HysteriaPortForwardStatus → HysteriaPortForwardStatus
push_tool t status = record status { tools = status.tools ++ t ∷ [] }

-- `format!("{tool}: {error}")`
abbrev pub tool_error : Text → Text → Text
tool_error tool error = tool ++ (b':' ∷ b' ' ∷ error)

module _ {E : Type 0} (ex : PortForwardExecutor E) where
  unfoldable pub execute_port_forward_commands :
      List PortForwardCommand → E → Result Text (Unit {0}) × E
  execute_port_forward_commands [] e = (ok tt, e)
  execute_port_forward_commands (command ∷ commands) e =
      let (result, e1) = ex.run_command command e in
      let rest = execute_port_forward_commands commands e1 in
      elim result as (λ _. Result Text (Unit {0}) × E) [ err error ↦ (err error, e1) | ok _ ↦ rest ]

  unfoldable pub execute_reconcile_port_forward_tool :
      Text → List PortForwardRule → List FirewallAllowRule → E → Result Text (Unit {0}) × E
  unfolding execute_port_forward_commands
  execute_reconcile_port_forward_tool tool rules allow_rules e =
      let (prerouting, e1) = ex.command_output (list_prerouting tool) e in
      let (input, e2) = ex.command_output (list_input tool) e1 in
      let (chain, e3) = ex.command_output (list_chain tool) e2 in
      execute_port_forward_commands
        (reconcile_port_forward_commands_with_allow_ports tool rules allow_rules
          (or_default prerouting) (or_default input) (is_ok chain))
        e3

  unfoldable pub execute_cleanup_port_forward_tool : Text → E → Result Text (Unit {0}) × E
  unfolding execute_port_forward_commands
  execute_cleanup_port_forward_tool tool e =
      let (prerouting, e1) = ex.command_output (list_prerouting tool) e in
      let (input, e2) = ex.command_output (list_input tool) e1 in
      let (chain, e3) = ex.command_output (list_chain tool) e2 in
      execute_port_forward_commands
        (cleanup_port_forward_commands_with_filter tool (or_default prerouting) (or_default input)
          (is_ok chain))
        e3

  unfoldable pub execute_mieru_port_forward_tool :
      Text → List PortForwardRule → List FirewallAllowRule → E → Result Text (Unit {0}) × E
  unfolding execute_port_forward_commands
  execute_mieru_port_forward_tool tool rules allow_rules e =
      let (prerouting, e1) = ex.command_output (list_prerouting tool) e in
      let (input, e2) = ex.command_output (list_input tool) e1 in
      execute_port_forward_commands
        (reconcile_port_forward_commands_for_comment tool rules allow_rules (or_default prerouting)
          (or_default input) mieru_port_forward_comment)
        e2

-- The loops over the tools, which differ in how they inspect and how they repair.
module _ {E : Type 0} (inspect : Text → E → HysteriaPortForwardToolStatus × E) where
  unfoldable pub inspect_tools :
      List Text → HysteriaPortForwardStatus → E → HysteriaPortForwardStatus × E
  inspect_tools [] status e = (status, e)
  inspect_tools (tool ∷ tools) status e =
      let (t, e1) = inspect tool e in inspect_tools tools (push_tool t status) e1

-- `wanted` is the condition on an available tool.
module _ {E : Type 0} (inspect : Text → E → HysteriaPortForwardToolStatus × E)
    (execute : Text → E → Result Text (Unit {0}) × E)
    (wanted : HysteriaPortForwardToolStatus → Bool) where
  unfoldable pub repair_tool : Text → HysteriaPortForwardStatus → E → HysteriaPortForwardStatus × E
  repair_tool tool status e =
      let (t, e1) = inspect tool e in
      let (result, e2) = execute tool e1 in
      let (t', e3) = inspect tool e2 in
      if t.available && wanted t
      then elim result as (λ _. HysteriaPortForwardStatus × E) [
        | ok _ ↦ (push_tool t' status, e3)
        | err error ↦
            (push_tool (record t { error = error }) (push_error (tool_error tool error) status), e2)
      ]
      else (push_tool t status, e1)

  unfoldable pub repair_tools :
      List Text → HysteriaPortForwardStatus → E → HysteriaPortForwardStatus × E
  unfolding repair_tool
  repair_tools [] status e = (status, e)
  repair_tools (tool ∷ tools) status e =
      let (status1, e1) = repair_tool tool status e in repair_tools tools status1 e1

-- What the two repairing functions do with a plan: without root they only look.
module _ {E : Type 0} (inspect : Text → E → HysteriaPortForwardToolStatus × E)
    (execute : Text → E → Result Text (Unit {0}) × E) where
  unfoldable pub repair_plan :
      HysteriaPortForwardPlan → Text → HysteriaPortForwardStatus → E → HysteriaPortForwardStatus × E
  unfolding inspect_tools repair_tools hysteria_port_forward_needs_repair
  repair_plan plan refusal status e =
      let (looked, e1) = inspect_tools inspect hysteria_port_forward_tools status e in
      if not status.running_as_root
      then (
        if not (is_empty plan.nat_rules)
              || (not (is_empty plan.allow_rules) || hysteria_port_forward_needs_repair looked)
            then push_error refusal looked
            else looked,
        e1,
      )
      else repair_tools inspect execute differs hysteria_port_forward_tools status e

module _ {E : Type 0} (ex : PortForwardExecutor E) where
  abbrev pub inspect_hysteria_tool :
      HysteriaPortForwardPlan → Text → E → HysteriaPortForwardToolStatus × E
  inspect_hysteria_tool plan tool e =
      inspect_port_forward_tool_with_allow_rules ex tool plan.nat_rules plan.allow_rules e

  abbrev pub inspect_mieru_tool :
      HysteriaPortForwardPlan → Text → E → HysteriaPortForwardToolStatus × E
  inspect_mieru_tool plan tool e =
      inspect_port_forward_tool_with_comment ex tool plan.nat_rules plan.allow_rules
        mieru_port_forward_comment e

  abbrev pub reconcile_hysteria_tool :
      HysteriaPortForwardPlan → Text → E → Result Text (Unit {0}) × E
  reconcile_hysteria_tool plan tool e =
      execute_reconcile_port_forward_tool ex tool plan.nat_rules plan.allow_rules e

  abbrev pub reconcile_mieru_tool : HysteriaPortForwardPlan → Text → E → Result Text (Unit {0}) × E
  reconcile_mieru_tool plan tool e =
      execute_mieru_port_forward_tool ex tool plan.nat_rules plan.allow_rules e

  unfoldable pub inspect_hysteria_port_forward : List NodeInfo → E → HysteriaPortForwardStatus × E
  unfolding inspect_tools
  inspect_hysteria_port_forward infos e =
      let plan = build_hysteria_port_forward_plan infos in
      inspect_tools (inspect_hysteria_tool plan) hysteria_port_forward_tools
        (new_hysteria_port_forward_status_from_plan plan (ex.running_as_root e)) e

  unfoldable pub repair_hysteria_port_forward : List NodeInfo → E → HysteriaPortForwardStatus × E
  unfolding repair_plan
  repair_hysteria_port_forward infos e =
      let plan = build_hysteria_port_forward_plan infos in
      repair_plan (inspect_hysteria_tool plan) (reconcile_hysteria_tool plan) plan
        (text "HY2 port forwarding repair requires root")
        (new_hysteria_port_forward_status_from_plan plan (ex.running_as_root e)) e

  unfoldable pub cleanup_hysteria_port_forward : E → HysteriaPortForwardStatus × E
  unfolding inspect_tools repair_tools
  cleanup_hysteria_port_forward e =
      let status = set_hysteria_port_forward_disabled (ex.running_as_root e) in
      if not status.running_as_root
      then inspect_tools (λ tool. inspect_port_forward_tool ex tool []) hysteria_port_forward_tools
          (push_error (text "HY2 port forwarding cleanup requires root") status) e
      else repair_tools (λ tool. inspect_port_forward_tool_with_allow_rules ex tool [] [])
          (execute_cleanup_port_forward_tool ex) (λ _. true) hysteria_port_forward_tools status e

  unfoldable pub inspect_mieru_port_forward : List NodeInfo → E → HysteriaPortForwardStatus × E
  unfolding inspect_tools
  inspect_mieru_port_forward infos e =
      let plan = build_mieru_port_forward_plan infos in
      inspect_tools (inspect_mieru_tool plan) hysteria_port_forward_tools
        (new_mieru_port_forward_status_from_plan plan (ex.running_as_root e)) e

  unfoldable pub repair_mieru_port_forward : List NodeInfo → E → HysteriaPortForwardStatus × E
  unfolding repair_plan
  repair_mieru_port_forward infos e =
      let plan = build_mieru_port_forward_plan infos in
      repair_plan (inspect_mieru_tool plan) (reconcile_mieru_tool plan) plan
        (text "Mieru port forwarding repair requires root")
        (new_mieru_port_forward_status_from_plan plan (ex.running_as_root e)) e
