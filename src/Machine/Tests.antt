-- ===== src/Machine/Tests.antt =====
-- Runs of src/machine.rs on two panels that name nodes of one machine.
use kelinode_rs.Prelude.{
  ℕ, true, false, none, some, List, [], ◌∷◌, map, any, String, ◌≡◌, refl, arith,
}
use kelinode_rs.Prelude.Text.{
  Text, text, text_eq, trim, trim_end, trim_matches, strip_prefix, split, is_alphanumeric,
}
use kelinode_rs.Prelude.Decimal.{decimal}
use kelinode_rs.Prelude.Result.{Result, ok, err, is_ok, Ensures}
use kelinode_rs.SubscriptionProxy.Paths.{is_valid_upstream_base_url}
use kelinode_rs.Prelude.Str.{split_once_text}
use kelinode_rs.Panel.{other}
use kelinode_rs.Machine.{
  MachineProfileConfig, MachinePanelNode, MachineNodesResponse, MachineProfileInput, NodeConfig,
  MachineResolveSummary, SubscriptionProxyConfig,
}
use kelinode_rs.Machine.Names.{
  machine_node_key, sanitized, machine_profile_label, valid_subscription_proxy_profile,
  machine_profile_node_config_dir, sanitize_machine_profile_name, without_slashes,
}
use kelinode_rs.Machine.Merge.{no_proxy, as_source}
use kelinode_rs.Machine.Resolve.{
  node_config, add_node, add_nodes, add_inputs, settled_summary, resolve_machine_profile_result,
  resolve_machine_profiles,
}
use kelinode_rs.Machine.Summary.{IsResolved, resolve_machine_profiles-IsResolved}
use kelinode_rs.Machine.Answered.{is_answered, IsComplete, resolve_machine_profiles_answered}
use kelinode_rs.Machine.Served.{HasServed, resolve_machine_profiles-HasServed}
use kelinode_rs.Machine.Keys.{machine_node_key_injective}

abbrev profile : String → ℕ → MachineProfileConfig
profile name machine_id = record {
  name = text name;
  url = text "https://panel.test/";
  token = text "secret";
  machine_id = machine_id;
  timeout = 30;
  config_dir = [];
}

abbrev panel_node : ℕ → MachinePanelNode
panel_node id = record { id = id; code = []; node_type = []; name = []; updated_at = other }

abbrev panel_proxy : SubscriptionProxyConfig
panel_proxy = record (as_source no_proxy) { enabled = true; site_id = text "Shop" }

abbrev response : List ℕ → MachineNodesResponse
response ids = record {
  nodes = map panel_node ids;
  base_config = none;
  agent = some (record { subscription_proxy = some panel_proxy });
}

-- The second answers nothing, and the third names node 7 again.
abbrev inputs : List MachineProfileInput
inputs =
    record { profile = profile "Main Site" 3; result = ok (response (7 ∷ 0 ∷ 8 ∷ [])) }
    ∷ record { profile = profile "down" 3; result = err (text "timeout") }
    ∷ record { profile = profile "again" 3; result = ok (response (7 ∷ 9 ∷ [])) }
    ∷ []

sanitized_name : sanitize_machine_profile_name (text " /Main  Site! ") ≡ text "Main-Site"
unfolding sanitize_machine_profile_name sanitized trim trim_matches is_alphanumeric
sanitized_name = refl

node_directory :
    machine_profile_node_config_dir (profile "Main Site" 3) 7
    ≡ text "/etc/kelinode/Main-Site/node-7"
unfolding machine_profile_node_config_dir sanitize_machine_profile_name machine_profile_label trim
    trim_matches decimal sanitized is_alphanumeric
node_directory = refl

resolve_machine_profiles-IsResolved_example :
    Ensures (IsResolved inputs) (resolve_machine_profiles inputs true)
resolve_machine_profiles-IsResolved_example = resolve_machine_profiles-IsResolved inputs true

resolve_machine_profiles_answered_example :
    (is_ok (resolve_machine_profiles inputs true) ≡ any is_answered inputs)
    × Ensures (IsComplete inputs) (resolve_machine_profiles inputs false)
resolve_machine_profiles_answered_example = resolve_machine_profiles_answered inputs

resolve_machine_profiles-HasServed_example :
    Ensures HasServed (resolve_machine_profiles inputs true)
resolve_machine_profiles-HasServed_example = resolve_machine_profiles-HasServed inputs true

-- Two profiles whose URLs differ by a slash at the end.
abbrev first_node : NodeConfig
first_node = node_config (profile "Main Site" 3) (panel_node 7)

abbrev same_node : NodeConfig
same_node = record first_node { url = text "https://panel.test//" }

same_key : machine_node_key first_node ≡ machine_node_key same_node
unfolding machine_node_key trim_end
same_key = refl

machine_node_key_injective_example :
    (without_slashes first_node.url ≡ without_slashes same_node.url)
    × (first_node.machine_id ≡ same_node.machine_id)
    × (first_node.node_id ≡ same_node.node_id)
machine_node_key_injective_example =
    machine_node_key_injective first_node same_node (omega arith) (omega arith) (omega arith)
      (omega arith) same_key

abbrev outcome : Result Text MachineResolveSummary → List ℕ × List Text
outcome (err e) = ([], e ∷ [])
outcome (ok s) = (map (λ node. node.node_id) s.nodes, map (λ f. f.error) s.failures)

resolved_run : outcome (resolve_machine_profiles inputs true) ≡ (
  7 ∷ 8 ∷ 9 ∷ [],
  text "timeout" ∷ text "duplicate machine profile node: https://panel.test#3#7" ∷ [],
)
unfolding resolve_machine_profiles settled_summary add_inputs add_nodes add_node
    resolve_machine_profile_result machine_node_key trim_end decimal text_eq
resolved_run = refl

stopped_run : outcome (resolve_machine_profiles inputs false) ≡ ([], text "timeout" ∷ [])
unfolding resolve_machine_profiles settled_summary add_inputs add_nodes add_node
    resolve_machine_profile_result machine_node_key trim_end decimal text_eq
stopped_run = refl

-- A site that is valid here makes the configuration of the proxy invalid as a whole.
other_scheme :
    (valid_subscription_proxy_profile (text "shop") (text "ftp://shop.test") ≡ true)
    × (is_valid_upstream_base_url (text "ftp://shop.test") ≡ false)
unfolding valid_subscription_proxy_profile is_valid_upstream_base_url trim trim_end trim_matches
    split_once_text strip_prefix split
other_scheme = (refl, refl)
