-- ===== src/Machine/Resolve.antt =====
-- `resolve_machine_profile_result` and `resolve_machine_profiles` of src/machine.rs. The set of the
-- nodes seen so far is the list of their keys, the last first.
use kelinode_rs.Prelude.{
  ℕ, ◌+◌, Bool, true, false, not, ◌&&◌, Option, none, some, List, [], ◌∷◌, ◌++◌, map, ltb,
  if◌then◌else◌, is_empty, keep,
}
use kelinode_rs.Prelude.Text.{Text, text, trim, join}
use kelinode_rs.Prelude.Decimal.{parse_usize}
use kelinode_rs.Prelude.Result.{Result, ok, err, ◌>>=◌}
use kelinode_rs.SubscriptionProxy.Normalize.{is_seen}
use kelinode_rs.Panel.{Value, number, string, other, RealtimeBaseConfig}
use kelinode_rs.Machine.{
  MachineProfileConfig, NodeConfig, AgentConfig, MachineProfileBaseConfig, MachineAgentConfig,
  MachinePanelNode, MachineNodesResponse, MachineProfileRealtime, MachineResolveFailure,
  MachineResolveResult, MachineProfileInput, MachineResolveSummary, SubscriptionProxyConfig,
}
use kelinode_rs.Machine.Names.{
  without_slashes, machine_profile_label, machine_profile_node_config_dir, machine_node_key,
}
use kelinode_rs.Machine.Merge.{
  no_agent, no_proxy, merge_subscription_proxy, merge_runtime_agent,
  can_run_subscription_proxy_only,
}

-- `unwrap_or_default`
abbrev or_zero : Option ℕ → ℕ
or_zero none = 0
or_zero (some n) = n

unfoldable pub machine_realtime_interval_seconds : Value → ℕ
machine_realtime_interval_seconds (number n) = or_zero n
machine_realtime_interval_seconds (string s) = or_zero (parse_usize (trim s))
machine_realtime_interval_seconds other = 0

abbrev realtime_of : Option MachineProfileBaseConfig → Option RealtimeBaseConfig
realtime_of none = none
realtime_of (some config) = config.realtime

unfoldable pub machine_profile_realtime :
    MachineProfileConfig → MachineNodesResponse → Option MachineProfileRealtime
machine_profile_realtime profile response = elim (realtime_of response.base_config) [
  | none ↦ none
  | some realtime ↦ some (record {
    profile = machine_profile_label profile;
    machine_id = profile.machine_id;
    enabled = realtime.enabled;
    url = trim realtime.url;
    ping_interval = machine_realtime_interval_seconds realtime.ping_interval;
  })
]

abbrev pub has_id : MachinePanelNode → Bool
has_id node = ltb 0 node.id

abbrev pub node_config : MachineProfileConfig → MachinePanelNode → NodeConfig
node_config profile node = record {
  url = without_slashes profile.url;
  token = profile.token;
  node_id = node.id;
  machine_id = profile.machine_id;
  timeout = profile.timeout;
  config_dir = machine_profile_node_config_dir profile node.id;
}

abbrev proxy_of : Option MachineAgentConfig → Option SubscriptionProxyConfig
proxy_of none = none
proxy_of (some agent) = agent.subscription_proxy

abbrev pub agent_of : MachineProfileConfig → Option SubscriptionProxyConfig → AgentConfig
agent_of profile none = no_agent
agent_of profile (some proxy) = record {
  subscription_proxy = merge_subscription_proxy no_proxy profile proxy;
}

unfoldable pub resolve_machine_profile_result :
    MachineProfileConfig → MachineNodesResponse → MachineResolveResult
resolve_machine_profile_result profile response = record {
  nodes = map (node_config profile) (keep has_id response.nodes);
  agent = agent_of profile (proxy_of response.agent);
  realtime = machine_profile_realtime profile response;
}

-- The state of the loop.
pub record Resolving : Type 0 where
  pub summary : MachineResolveSummary
  pub seen_nodes : List Text
  pub successes : ℕ

abbrev pub nothing_resolved : Resolving
nothing_resolved = record {
  summary = record {
    nodes = [];
    agent = no_agent;
    realtime = [];
    failures = [];
    subscription_proxy_only = false;
  };
  seen_nodes = [];
  successes = 0;
}

abbrev pub failure_of : MachineProfileConfig → Text → MachineResolveFailure
failure_of profile error = record {
  profile = machine_profile_label profile;
  machine_id = profile.machine_id;
  error = error;
}

abbrev pub push_failure : MachineResolveFailure → Resolving → Resolving
push_failure failure r = record r {
  summary = record r.summary { failures = r.summary.failures ++ failure ∷ [] };
}

abbrev pub failed : Bool → MachineResolveFailure → Resolving → Result Text Resolving
failed continue_on_error failure r =
    if not continue_on_error then err failure.error else ok (push_failure failure r)

abbrev pub push_node : NodeConfig → Resolving → Resolving
push_node node r = record r {
  summary = record r.summary { nodes = r.summary.nodes ++ node ∷ [] };
  seen_nodes = machine_node_key node ∷ r.seen_nodes;
}

abbrev pub duplicate : Text → Text
duplicate key = text "duplicate machine profile node: " ++ key

unfoldable pub add_node :
    Bool → MachineProfileConfig → NodeConfig → Resolving → Result Text Resolving
add_node continue_on_error profile node r =
    let key = machine_node_key node in
    if is_seen key r.seen_nodes
    then failed continue_on_error (failure_of profile (duplicate key)) r
    else ok (push_node node r)

-- The loop over the nodes of a profile.
unfoldable pub add_nodes :
    Bool → MachineProfileConfig → List NodeConfig → Resolving → Result Text Resolving
add_nodes continue_on_error profile [] r = ok r
add_nodes continue_on_error profile (node ∷ nodes) r = do
  r1 ← add_node continue_on_error profile node r
  add_nodes continue_on_error profile nodes r1

abbrev pub push_realtime :
    Option MachineProfileRealtime → List MachineProfileRealtime → List MachineProfileRealtime
push_realtime none all = all
push_realtime (some realtime) all = all ++ realtime ∷ []

-- A response is merged before its nodes are added.
abbrev pub answered : MachineResolveResult → Resolving → Resolving
answered resolved r = record r {
  summary = record r.summary {
    agent = merge_runtime_agent r.summary.agent resolved.agent;
    realtime = push_realtime resolved.realtime r.summary.realtime;
  };
  successes = r.successes + 1;
}

abbrev pub add_result :
    Bool
    → MachineProfileConfig
    → Result Text MachineNodesResponse
    → Resolving
    → Result Text Resolving
add_result continue_on_error profile (err error) r =
    failed continue_on_error (failure_of profile error) r
add_result continue_on_error profile (ok response) r =
    let resolved = resolve_machine_profile_result profile response in
    add_nodes continue_on_error profile resolved.nodes (answered resolved r)

-- The loop over the inputs.
unfoldable pub add_inputs : Bool → List MachineProfileInput → Resolving → Result Text Resolving
add_inputs continue_on_error [] r = ok r
add_inputs continue_on_error (input ∷ inputs) r = do
  r1 ← add_result continue_on_error input.profile input.result r
  add_inputs continue_on_error inputs r1

abbrev failure_text : MachineResolveFailure → Text
failure_text failure = failure.profile ++ (text ": " ++ failure.error)

abbrev pub nothing_found : List MachineResolveFailure → Text
nothing_found failures =
    if not (is_empty failures)
    then text "no machine nodes resolved: " ++ join (text "; ") (map failure_text failures)
    else text "no machine nodes resolved"

-- The part after the loop.
unfoldable pub settled_summary : Resolving → Result Text MachineResolveSummary
settled_summary r =
    if is_empty r.summary.nodes
    then (if ltb 0 r.successes && can_run_subscription_proxy_only r.summary.agent
        then ok (record r.summary { subscription_proxy_only = true })
        else if ltb 0 r.successes
        then ok r.summary
        else err (nothing_found r.summary.failures))
    else ok r.summary

unfoldable pub resolve_machine_profiles :
    List MachineProfileInput → Bool → Result Text MachineResolveSummary
resolve_machine_profiles inputs continue_on_error = do
  r ← add_inputs continue_on_error inputs nothing_resolved
  settled_summary r
