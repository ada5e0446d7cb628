-- ===== src/PortForward/Unprivileged.antt =====
-- How src/port_forward.rs runs commands: never without root, and in order.
use kelinode_rs.Prelude.{Bool, false, not, List, [], ◌∷◌, ◌++◌, if◌then◌else◌, ◌≡◌, refl}
use kelinode_rs.Prelude.Text.{Text, text}
use kelinode_rs.Prelude.Result.{Result, ok, err}
use kelinode_rs.Panel.{NodeInfo}
use kelinode_rs.PortForward.{PortForwardCommand}
use kelinode_rs.PortForward.Rules.{HysteriaPortForwardPlan, build_hysteria_port_forward_plan}
use kelinode_rs.PortForward.Inspect.{
  HysteriaPortForwardToolStatus, HysteriaPortForwardStatus, PortForwardExecutor,
  new_hysteria_port_forward_status_from_plan, new_mieru_port_forward_status_from_plan,
  set_hysteria_port_forward_disabled,
}
use kelinode_rs.PortForward.Tools.{
  inspect_port_forward_tool_with_allow_rules, inspect_port_forward_tool,
  inspect_port_forward_tool_with_comment,
}
use kelinode_rs.PortForward.Repair.{
  repair_plan, execute_port_forward_commands, repair_hysteria_port_forward,
  repair_mieru_port_forward, cleanup_hysteria_port_forward, build_mieru_port_forward_plan,
  inspect_hysteria_tool, inspect_mieru_tool, reconcile_hysteria_tool, reconcile_mieru_tool,
}

-- The operation does the same whatever running a command does: it runs none.
abbrev pub RunsNothing :
    {E : Type 0}
    → (PortForwardExecutor E → E → HysteriaPortForwardStatus × E)
    → PortForwardExecutor E
    → E
    → Type 0
RunsNothing {E} operation ex e =
    (run : PortForwardCommand → E → Result Text (Unit {0}) × E)
    → operation (record ex { run_command = run }) e ≡ operation ex e

if_false :
    {A : Type 0} (b : Bool) (x y z : A)
    → b ≡ false
    → (if not b then x else y) ≡ (if not b then x else z)
if_false b x y z h = rw h refl

repair_plan-looks :
    {E : Type 0} (inspect : Text → E → HysteriaPortForwardToolStatus × E)
    (execute execute' : Text → E → Result Text (Unit {0}) × E) (plan : HysteriaPortForwardPlan)
    (refusal : Text) (status : HysteriaPortForwardStatus) (e : E)
    → status.running_as_root ≡ false
    → repair_plan inspect execute plan refusal status e
      ≡ repair_plan inspect execute' plan refusal status e
unfolding repair_plan
repair_plan-looks inspect execute execute' plan refusal status e h =
    if_false status.running_as_root _ _ _ h

module _ {E : Type 0} (ex : PortForwardExecutor E) (e : E) where
  abbrev other : (PortForwardCommand → E → Result Text (Unit {0}) × E) → PortForwardExecutor E
  other run = record ex { run_command = run }

  repair_hysteria-RunsNothing :
      (infos : List NodeInfo)
      → ex.running_as_root e ≡ false
      → RunsNothing (λ x. repair_hysteria_port_forward x infos) ex e
  unfolding repair_hysteria_port_forward new_hysteria_port_forward_status_from_plan
      inspect_port_forward_tool_with_allow_rules
  repair_hysteria-RunsNothing infos h run =
      let plan = build_hysteria_port_forward_plan infos in
      repair_plan-looks (inspect_hysteria_tool ex plan) (reconcile_hysteria_tool (other run) plan)
        (reconcile_hysteria_tool ex plan) plan (text "HY2 port forwarding repair requires root")
        (new_hysteria_port_forward_status_from_plan plan (ex.running_as_root e)) e h

  repair_mieru-RunsNothing :
      (infos : List NodeInfo)
      → ex.running_as_root e ≡ false
      → RunsNothing (λ x. repair_mieru_port_forward x infos) ex e
  unfolding repair_mieru_port_forward new_mieru_port_forward_status_from_plan
      inspect_port_forward_tool_with_comment
  repair_mieru-RunsNothing infos h run =
      let plan = build_mieru_port_forward_plan infos in
      repair_plan-looks (inspect_mieru_tool ex plan) (reconcile_mieru_tool (other run) plan)
        (reconcile_mieru_tool ex plan) plan (text "Mieru port forwarding repair requires root")
        (new_mieru_port_forward_status_from_plan plan (ex.running_as_root e)) e h

  cleanup_hysteria-RunsNothing :
      ex.running_as_root e ≡ false → RunsNothing cleanup_hysteria_port_forward ex e
  unfolding cleanup_hysteria_port_forward set_hysteria_port_forward_disabled
      inspect_port_forward_tool inspect_port_forward_tool_with_allow_rules
  cleanup_hysteria-RunsNothing h run = if_false (ex.running_as_root e) _ _ _ h

  -- Without root, neither the repairs nor the cleanup runs a command, for all nodes and whatever
  -- the tools print.
  pub unprivileged-RunsNothing :
      (infos : List NodeInfo)
      → ex.running_as_root e ≡ false
      → RunsNothing (λ x. repair_hysteria_port_forward x infos) ex e
        × RunsNothing (λ x. repair_mieru_port_forward x infos) ex e
        × RunsNothing cleanup_hysteria_port_forward ex e
  unprivileged-RunsNothing infos h = (
    repair_hysteria-RunsNothing infos h,
    repair_mieru-RunsNothing infos h,
    cleanup_hysteria-RunsNothing h,
  )

module _ {E : Type 0} (ex : PortForwardExecutor E) where
  -- The commands `ys` after a run of `xs`: they run where no command of `xs` failed.
  abbrev pub and_then :
      Result Text (Unit {0}) × E → List PortForwardCommand → Result Text (Unit {0}) × E
  and_then (err error, e) ys = (err error, e)
  and_then (ok _, e) ys = execute_port_forward_commands ex ys e

  -- Commands run in order, and the first that fails stops the rest with its error.
  pub execute_port_forward_commands-append :
      (xs ys : List PortForwardCommand) (e : E)
      → execute_port_forward_commands ex (xs ++ ys) e
        ≡ and_then (execute_port_forward_commands ex xs e) ys
  unfolding execute_port_forward_commands
  execute_port_forward_commands-append [] ys e = refl
  execute_port_forward_commands-append (c ∷ xs) ys e =
      after_one (execute_port_forward_commands-append xs ys) (ex.run_command c e).0
        (ex.run_command c e).1
    where
      after_one :
          ((e1 : E)
            → execute_port_forward_commands ex (xs ++ ys) e1
              ≡ and_then (execute_port_forward_commands ex xs e1) ys)
          → (result : Result Text (Unit {0})) (e1 : E)
          → (elim result as (λ _. Result Text (Unit {0}) × E) [
            | err error ↦ (err error, e1)
            | ok _ ↦ execute_port_forward_commands ex (xs ++ ys) e1
          ])
            ≡ and_then
                (elim result as (λ _. Result Text (Unit {0}) × E) [
                  | err error ↦ (err error, e1)
                  | ok _ ↦ execute_port_forward_commands ex xs e1
                ])
                ys
      after_one later (err error) e1 = refl
      after_one later (ok _) e1 = later e1
