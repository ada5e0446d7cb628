-- ===== src/PortForward/Reports.antt =====
-- The tools that the statuses of src/port_forward.rs report on.
use kelinode_rs.Prelude.{
  Bool, true, not, ◌&&◌, ◌||◌, List, [], ◌∷◌, ◌++◌, map, is_empty, ◌≡◌, refl, sym, ap, ◌∙◌, arith,
  if_intro, append_assoc, append-nil,
}
use kelinode_rs.Prelude.Text.{Text, text}
use kelinode_rs.Prelude.Result.{Result, ok, err}
use kelinode_rs.Panel.{NodeInfo}
use kelinode_rs.PortForward.{PortForwardRule, FirewallAllowRule, mieru_port_forward_comment}
use kelinode_rs.PortForward.Rules.{HysteriaPortForwardPlan, build_hysteria_port_forward_plan}
use kelinode_rs.PortForward.Inspect.{
  HysteriaPortForwardToolStatus, HysteriaPortForwardStatus, PortForwardExecutor,
  inspect_managed_specs_with_comment, new_hysteria_port_forward_status_from_plan,
  new_mieru_port_forward_status_from_plan, set_hysteria_port_forward_disabled,
  inspect_hysteria_managed_specs, hysteria_port_forward_needs_repair, differs,
}
use kelinode_rs.PortForward.Tools.{
  inspect_port_forward_tool_with_allow_rules, inspect_port_forward_tool_with_comment,
  inspect_port_forward_tool,
}
use kelinode_rs.PortForward.Repair.{
  hysteria_port_forward_tools, push_tool, push_error, inspect_tools, repair_tool, repair_tools,
  repair_plan, repair_hysteria_port_forward, repair_mieru_port_forward,
  cleanup_hysteria_port_forward, inspect_hysteria_port_forward, inspect_mieru_port_forward,
  build_mieru_port_forward_plan, inspect_hysteria_tool, inspect_mieru_tool, reconcile_hysteria_tool,
  reconcile_mieru_tool, execute_cleanup_port_forward_tool, tool_error,
}

abbrev pub tool_names : HysteriaPortForwardStatus → List Text
tool_names status = map (λ t. t.tool) status.tools

-- An inspection that reports on the tool that it inspects.
abbrev Names : {E : Type 0} → (Text → E → HysteriaPortForwardToolStatus × E) → Type 0
Names {E} inspect = (tool : Text) (e : E) → (inspect tool e).0.tool ≡ tool

module _ {E : Type 0} (ex : PortForwardExecutor E) where
  with_allow_rules-Names :
      (rules : List PortForwardRule) (allow_rules : List FirewallAllowRule)
      → Names (λ tool. inspect_port_forward_tool_with_allow_rules ex tool rules allow_rules)
  unfolding inspect_port_forward_tool_with_allow_rules inspect_hysteria_managed_specs
      inspect_managed_specs_with_comment
  with_allow_rules-Names rules allow_rules tool e = ground arith

  with_comment-Names :
      (rules : List PortForwardRule) (allow_rules : List FirewallAllowRule) (comment : Text)
      → Names (λ tool. inspect_port_forward_tool_with_comment ex tool rules allow_rules comment)
  unfolding inspect_port_forward_tool_with_comment inspect_managed_specs_with_comment
  with_comment-Names rules allow_rules comment tool e = ground arith

map-append : {A B : Type 0} (f : A → B) (xs ys : List A) → map f (xs ++ ys) ≡ map f xs ++ map f ys
map-append f [] ys = refl
map-append f (x ∷ xs) ys = ap (λ l. f x ∷ l) (map-append f xs ys)

push_tool-names :
    (t : HysteriaPortForwardToolStatus) (status : HysteriaPortForwardStatus)
    → tool_names (push_tool t status) ≡ tool_names status ++ t.tool ∷ []
push_tool-names t status = map-append (λ t. t.tool) status.tools (t ∷ [])

module _ {E : Type 0} (inspect : Text → E → HysteriaPortForwardToolStatus × E)
    (names : Names inspect) where
  inspect_tools-names :
      (tools : List Text) (status : HysteriaPortForwardStatus) (e : E)
      → tool_names (inspect_tools inspect tools status e).0 ≡ tool_names status ++ tools
  unfolding inspect_tools
  inspect_tools-names [] status e = sym (append-nil (tool_names status))
  inspect_tools-names (tool ∷ tools) status e =
      let r = inspect tool e in
      inspect_tools-names tools (push_tool r.0 status) r.1
      ∙ ap (λ l. l ++ tools)
          (push_tool-names r.0 status ∙ ap (λ n. tool_names status ++ n ∷ []) (names tool e))
      ∙ append_assoc (tool_names status) (tool ∷ []) tools

  module _ (execute : Text → E → Result Text (Unit {0}) × E)
      (wanted : HysteriaPortForwardToolStatus → Bool) where
    repair_tool-names :
        (tool : Text) (status : HysteriaPortForwardStatus) (e : E)
        → tool_names (repair_tool inspect execute wanted tool status e).0
          ≡ tool_names status ++ tool ∷ []
    unfolding repair_tool
    repair_tool-names tool status e =
        let r = inspect tool e in
        if_intro {A = HysteriaPortForwardStatus × E}
          (λ x. tool_names x.0 ≡ tool_names status ++ tool ∷ []) (r.0.available && wanted r.0)
          (λ _. executed (execute tool r.1).0 (execute tool r.1).1)
          (λ _. push_tool-names r.0 status ∙ ap (λ n. tool_names status ++ n ∷ []) (names tool e))
      where
        executed :
            (result : Result Text (Unit {0})) (e2 : E)
            → tool_names
                (elim result as (λ _. HysteriaPortForwardStatus × E) [
                  | ok _ ↦ (push_tool (inspect tool e2).0 status, (inspect tool e2).1)
                  | err error ↦ (
                    push_tool
                        (record (inspect tool e).0 { error = error })
                        (push_error (tool_error tool error) status),
                    e2,
                  )
                ]).0
              ≡ tool_names status ++ tool ∷ []
        executed (ok _) e2 =
            push_tool-names _ status ∙ ap (λ n. tool_names status ++ n ∷ []) (names tool e2)
        executed (err error) e2 =
            push_tool-names (record (inspect tool e).0 { error = error })
              (push_error (tool_error tool error) status)
            ∙ ap (λ n. tool_names status ++ n ∷ []) (names tool e)

    repair_tools-names :
        (tools : List Text) (status : HysteriaPortForwardStatus) (e : E)
        → tool_names (repair_tools inspect execute wanted tools status e).0
          ≡ tool_names status ++ tools
    unfolding repair_tools
    repair_tools-names [] status e = sym (append-nil (tool_names status))
    repair_tools-names (tool ∷ tools) status e =
        let r = repair_tool inspect execute wanted tool status e in
        repair_tools-names tools r.0 r.1
        ∙ ap (λ l. l ++ tools) (repair_tool-names tool status e)
        ∙ append_assoc (tool_names status) (tool ∷ []) tools

  repair_plan-names :
      (execute : Text → E → Result Text (Unit {0}) × E) (plan : HysteriaPortForwardPlan)
      (refusal : Text) (status : HysteriaPortForwardStatus) (e : E)
      → tool_names (repair_plan inspect execute plan refusal status e).0
        ≡ tool_names status ++ hysteria_port_forward_tools
  unfolding repair_plan
  repair_plan-names execute plan refusal status e =
      if_intro {A = HysteriaPortForwardStatus × E}
        (λ x. tool_names x.0 ≡ tool_names status ++ hysteria_port_forward_tools)
        (not status.running_as_root)
        (λ _.
          if_intro {A = HysteriaPortForwardStatus}
            (λ x. tool_names x ≡ tool_names status ++ hysteria_port_forward_tools)
            (not (is_empty plan.nat_rules)
              || (not (is_empty plan.allow_rules)
                  || hysteria_port_forward_needs_repair
                      (inspect_tools inspect hysteria_port_forward_tools status e).0))
            (λ _. inspect_tools-names hysteria_port_forward_tools status e)
            (λ _. inspect_tools-names hysteria_port_forward_tools status e))
        (λ _. repair_tools-names execute differs hysteria_port_forward_tools status e)

-- On every path, errors and missing root included, an inspection, a repair and the cleanup report
-- on `iptables` and then `ip6tables`, once each.
pub reports_each_tool :
    {E : Type 0} (ex : PortForwardExecutor E) (infos : List NodeInfo) (e : E)
    → (tool_names (inspect_hysteria_port_forward ex infos e).0 ≡ hysteria_port_forward_tools)
      × (tool_names (repair_hysteria_port_forward ex infos e).0 ≡ hysteria_port_forward_tools)
      × (tool_names (cleanup_hysteria_port_forward ex e).0 ≡ hysteria_port_forward_tools)
      × (tool_names (inspect_mieru_port_forward ex infos e).0 ≡ hysteria_port_forward_tools)
      × (tool_names (repair_mieru_port_forward ex infos e).0 ≡ hysteria_port_forward_tools)
unfolding inspect_hysteria_port_forward repair_hysteria_port_forward cleanup_hysteria_port_forward
    inspect_mieru_port_forward repair_mieru_port_forward new_hysteria_port_forward_status_from_plan
    new_mieru_port_forward_status_from_plan set_hysteria_port_forward_disabled
    inspect_port_forward_tool
reports_each_tool {E} ex infos e =
    let plan = build_hysteria_port_forward_plan infos in
    let mieru = build_mieru_port_forward_plan infos in
    let root = ex.running_as_root e in
    let names = with_allow_rules-Names ex plan.nat_rules plan.allow_rules in
    let mieru_names =
      with_comment-Names ex mieru.nat_rules mieru.allow_rules mieru_port_forward_comment in
    let none_left = with_allow_rules-Names ex [] [] in
    (
      inspect_tools-names (inspect_hysteria_tool ex plan) names hysteria_port_forward_tools
          (new_hysteria_port_forward_status_from_plan plan root) e,
      repair_plan-names (inspect_hysteria_tool ex plan) names (reconcile_hysteria_tool ex plan) plan
          _ (new_hysteria_port_forward_status_from_plan plan root) e,
      if_intro {A = HysteriaPortForwardStatus × E}
          (λ x. tool_names x.0 ≡ hysteria_port_forward_tools) (not root)
          (λ _.
            inspect_tools-names (λ tool. inspect_port_forward_tool ex tool []) none_left
              hysteria_port_forward_tools
              (push_error (text "HY2 port forwarding cleanup requires root")
                (set_hysteria_port_forward_disabled root))
              e)
          (λ _.
            repair_tools-names (λ tool. inspect_port_forward_tool_with_allow_rules ex tool [] [])
              none_left (execute_cleanup_port_forward_tool ex) (λ _. true)
              hysteria_port_forward_tools (set_hysteria_port_forward_disabled root) e),
      inspect_tools-names (inspect_mieru_tool ex mieru) mieru_names hysteria_port_forward_tools
          (new_mieru_port_forward_status_from_plan mieru root) e,
      repair_plan-names (inspect_mieru_tool ex mieru) mieru_names (reconcile_mieru_tool ex mieru)
          mieru _ (new_mieru_port_forward_status_from_plan mieru root) e,
    )
