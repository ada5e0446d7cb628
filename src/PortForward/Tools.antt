-- ===== src/PortForward/Tools.antt =====
-- src/port_forward.rs: the inspection of one tool through an executor.
use kelinode_rs.Prelude.{Bool, true, false, not, List, [], ◌∷◌, if◌then◌else◌}
use kelinode_rs.Prelude.Text.{Text, text}
use kelinode_rs.Prelude.Result.{ok, err, is_ok}
use kelinode_rs.Prelude.Order.{text_ord}
use kelinode_rs.PortForward.{
  PortForwardRule, FirewallAllowRule, PortForwardCommand, hysteria_port_forward_chain,
}
use kelinode_rs.PortForward.Spec.{expected_hysteria_managed_specs}
use kelinode_rs.PortForward.Commands.{command}
use kelinode_rs.PortForward.Inspect.{
  HysteriaPortForwardToolStatus, PortForwardExecutor, inspect_managed_specs_with_comment,
  inspect_hysteria_managed_specs,
}

abbrev pub list_prerouting : Text → PortForwardCommand
list_prerouting tool = command tool (text "-t" ∷ text "nat" ∷ text "-S" ∷ text "PREROUTING" ∷ [])

abbrev pub list_input : Text → PortForwardCommand
list_input tool = command tool (text "-S" ∷ text "INPUT" ∷ [])

abbrev pub list_chain : Text → PortForwardCommand
list_chain tool =
    command tool (text "-t" ∷ text "nat" ∷ text "-S" ∷ hysteria_port_forward_chain ∷ [])

module _ {E : Type 0} (ex : PortForwardExecutor E) (tool : Text) (rules : List PortForwardRule)
    (allow_rules : List FirewallAllowRule) where
  abbrev pub uninspected : Bool → Text → HysteriaPortForwardToolStatus
  uninspected available error = record {
    tool = tool;
    available = available;
    current = [];
    expected = expected_hysteria_managed_specs rules allow_rules;
    missing = [];
    extra = [];
    stale_chain = false;
    error = error;
  }

  -- What both inspections of a tool do; `finish` has the outputs of the two chains.
  abbrev pub inspect_outputs :
      (Text → Text → E → HysteriaPortForwardToolStatus × E) → E → HysteriaPortForwardToolStatus × E
  inspect_outputs finish e =
      let (available, e1) = ex.is_tool_available tool e in
      let (prerouting, e2) = ex.command_output (list_prerouting tool) e1 in
      let (input, e3) = ex.command_output (list_input tool) e2 in
      if not available
      then (uninspected false [], e1)
      else elim prerouting as (λ _. HysteriaPortForwardToolStatus × E) [
        | err error ↦ (uninspected true error, e2)
        | ok prerouting_output ↦ elim input as (λ _. HysteriaPortForwardToolStatus × E) [
          | err error ↦ (uninspected true error, e3)
          | ok input_output ↦ finish prerouting_output input_output e3
        ]
      ]

  unfoldable pub inspect_port_forward_tool_with_allow_rules : E → HysteriaPortForwardToolStatus × E
  unfolding inspect_hysteria_managed_specs
  inspect_port_forward_tool_with_allow_rules e =
      inspect_outputs
        (λ prerouting_output input_output e3.
          let (chain, e4) = ex.command_output (list_chain tool) e3 in
          (
            inspect_hysteria_managed_specs tool rules allow_rules prerouting_output input_output
                (is_ok chain),
            e4,
          ))
        e

  unfoldable pub inspect_port_forward_tool_with_comment :
      Text → E → HysteriaPortForwardToolStatus × E
  unfolding inspect_managed_specs_with_comment
  inspect_port_forward_tool_with_comment comment e =
      inspect_outputs
        (λ prerouting_output input_output e3. (
          inspect_managed_specs_with_comment tool rules allow_rules prerouting_output input_output
              false comment,
          e3,
        ))
        e

module _ {E : Type 0} (ex : PortForwardExecutor E) where
  unfoldable pub inspect_port_forward_tool :
      Text → List PortForwardRule → E → HysteriaPortForwardToolStatus × E
  unfolding inspect_port_forward_tool_with_allow_rules
  inspect_port_forward_tool tool rules e =
      inspect_port_forward_tool_with_allow_rules ex tool rules [] e
