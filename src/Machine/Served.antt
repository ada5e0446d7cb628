-- ===== src/Machine/Served.antt =====
-- The subscription proxy of the summary of src/machine.rs.
use kelinode_rs.Prelude.{
  Bool, true, false, not, ◌&&◌, Option, none, some, List, [], ◌∷◌, is_empty, refl, arith, if_intro,
}
use kelinode_rs.Prelude.Text.{Text}
use kelinode_rs.SubscriptionProxy.Normalize.{is_seen}
use kelinode_rs.Prelude.Result.{
  Result, ok, err, Ensures, Yields, of_value, of_error, then-Yields, Yields-Ensures,
}
use kelinode_rs.SubscriptionProxy.{SubscriptionProxyConfig as RuntimeSubscriptionProxyConfig}
use kelinode_rs.Machine.{
  MachineProfileConfig, MachineProfileInput, MachineNodesResponse, MachineResolveFailure,
  MachineResolveSummary, NodeConfig, AgentConfig, SubscriptionProxyConfig,
}
use kelinode_rs.Machine.Sites.{
  AreServed, push_sites-AreServed, merge_sites-AreServed, valid_profiles-IsValidSite,
  valid_websites-IsValidWebsite,
}
use kelinode_rs.Machine.Resolve.{
  Resolving, nothing_resolved, failed, failure_of, duplicate, agent_of, add_node, add_nodes,
  answered, add_result, add_inputs, settled_summary, resolve_machine_profile_result,
  resolve_machine_profiles,
}
use kelinode_rs.Machine.Summary.{settled-Yields}
use kelinode_rs.Machine.Names.{machine_node_key}
use kelinode_rs.Machine.Merge.{
  no_proxy, filled, as_source, merge_subscription_proxy, merge_runtime_agent,
}
use kelinode_rs.Machine.Offered.{valid_profiles, valid_websites, source_profiles}

pub merge_subscription_proxy-AreServed :
    (target : RuntimeSubscriptionProxyConfig) (profile : MachineProfileConfig)
    (source : SubscriptionProxyConfig)
    → AreServed target
    → AreServed (merge_subscription_proxy target profile source)
unfolding merge_subscription_proxy
merge_subscription_proxy-AreServed target profile source h =
    if_intro AreServed
      (not source.enabled && (is_empty source.profiles && is_empty source.website_profiles))
      (λ _. h)
      (λ _.
        merge_sites-AreServed target source (valid_profiles profile (source_profiles source))
          (valid_websites profile source.website_profiles) h
          (valid_profiles-IsValidSite profile (source_profiles source))
          (valid_websites-IsValidWebsite profile source.website_profiles))

pub no_proxy-AreServed : AreServed no_proxy
no_proxy-AreServed = record {
  sites = record { valid = tt; apart = tt };
  websites = record { valid = tt; apart = tt };
  serves = refl;
}

pub merge_runtime_agent-AreServed :
    (target source : AgentConfig)
    → AreServed target.subscription_proxy
    → AreServed source.subscription_proxy
    → AreServed (merge_runtime_agent target source).subscription_proxy
unfolding merge_runtime_agent
merge_runtime_agent-AreServed target source h k =
    let proxy = target.subscription_proxy in
    let from = source.subscription_proxy in
    if_intro (λ (a : AgentConfig). AreServed a.subscription_proxy) (not from.enabled) (λ _. h)
      (λ on.
        if_intro (λ (a : AgentConfig). AreServed a.subscription_proxy) (not proxy.enabled) (λ _. k)
          (λ target_on.
            push_sites-AreServed (filled proxy (as_source from)) from.profiles from.website_profiles
              h.sites h.websites (ground (arith, target_on)) (ground (arith, on, k.serves))
              k.sites.valid k.websites.valid))

agent_of-AreServed :
    (profile : MachineProfileConfig) (proxy : Option SubscriptionProxyConfig)
    → AreServed (agent_of profile proxy).subscription_proxy
agent_of-AreServed profile none = no_proxy-AreServed
agent_of-AreServed profile (some proxy) =
    merge_subscription_proxy-AreServed no_proxy profile proxy no_proxy-AreServed

abbrev ServesWell : Resolving → Type 0
ServesWell r = AreServed r.summary.agent.subscription_proxy

failed-ServesWell :
    (c : Bool) (f : MachineResolveFailure) (r : Resolving)
    → ServesWell r
    → Yields ServesWell (failed c f r)
failed-ServesWell true f r h = of_value h
failed-ServesWell false f r h = of_error

add_nodes-ServesWell :
    (c : Bool) (profile : MachineProfileConfig) (nodes : List NodeConfig) (r : Resolving)
    → ServesWell r
    → Yields ServesWell (add_nodes c profile nodes r)
unfolding add_nodes add_node
add_nodes-ServesWell c profile [] r h = of_value h
add_nodes-ServesWell c profile (node ∷ nodes) r h =
    let key = machine_node_key node in
    then-Yields ServesWell ServesWell (add_node c profile node r) (add_nodes c profile nodes)
      (if_intro (Yields ServesWell) (is_seen key r.seen_nodes)
        (λ _. failed-ServesWell c (failure_of profile (duplicate key)) r h) (λ _. of_value h))
      (λ r1 k. add_nodes-ServesWell c profile nodes r1 k)

add_result-ServesWell :
    (c : Bool) (profile : MachineProfileConfig) (result : Result Text MachineNodesResponse)
    (r : Resolving)
    → ServesWell r
    → Yields ServesWell (add_result c profile result r)
unfolding resolve_machine_profile_result
add_result-ServesWell c profile (err e) r h = failed-ServesWell c (failure_of profile e) r h
add_result-ServesWell c profile (ok response) r h =
    let resolved = resolve_machine_profile_result profile response in
    add_nodes-ServesWell c profile resolved.nodes (answered resolved r) (
      merge_runtime_agent-AreServed r.summary.agent resolved.agent h (agent_of-AreServed profile _))

add_inputs-ServesWell :
    (c : Bool) (inputs : List MachineProfileInput) (r : Resolving)
    → ServesWell r
    → Yields ServesWell (add_inputs c inputs r)
unfolding add_inputs
add_inputs-ServesWell c [] r h = of_value h
add_inputs-ServesWell c (input ∷ inputs) r h =
    then-Yields ServesWell ServesWell (add_result c input.profile input.result r)
      (add_inputs c inputs) (add_result-ServesWell c input.profile input.result r h)
      (λ r1 k. add_inputs-ServesWell c inputs r1 k)

abbrev pub HasServed : MachineResolveSummary → Type 0
HasServed s = AreServed s.agent.subscription_proxy

-- Whatever the panels answer, the proxy of the summary has valid sites and websites only, no site
-- twice, letter case aside, and no website twice under one prefix, and it is enabled exactly if there
-- is one of them.
pub resolve_machine_profiles-HasServed :
    (inputs : List MachineProfileInput) (continue_on_error : Bool)
    → Ensures HasServed (resolve_machine_profiles inputs continue_on_error)
unfolding resolve_machine_profiles
resolve_machine_profiles-HasServed inputs c = Yields-Ensures (
    then-Yields ServesWell HasServed (add_inputs c inputs nothing_resolved) settled_summary
      (add_inputs-ServesWell c inputs nothing_resolved no_proxy-AreServed)
      (λ r h. settled-Yields HasServed r h h))
