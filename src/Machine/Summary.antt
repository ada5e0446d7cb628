-- ===== src/Machine/Summary.antt =====
-- The nodes of the summary of src/machine.rs.
use kelinode_rs.Prelude.{
  ◌+◌, Bool, true, false, ◌&&◌, List, [], ◌∷◌, map, ltb, is_empty, length, All, ◌≡◌, refl, sym,
  arith, if_intro,
}
use mathlib.Core.Path.{subst}
use kelinode_rs.Prelude.Text.{Text, text_eq_iff}
use kelinode_rs.Prelude.Result.{Ensures, Yields, of_value, of_error, then-Yields, Yields-Ensures}
use kelinode_rs.SubscriptionProxy.Normalize.{is_seen}
use kelinode_rs.SubscriptionProxy.Normalize.Profiles.{AreFresh, IsKept, moved-IsKept}
use kelinode_rs.Machine.{NodeConfig, MachineProfileInput, MachineResolveSummary}
use kelinode_rs.Machine.Names.{machine_node_key}
use kelinode_rs.Machine.Merge.{can_run_subscription_proxy_only}
use kelinode_rs.Machine.Resolve.{
  Resolving, nothing_resolved, add_inputs, settled_summary, resolve_machine_profiles,
}
use kelinode_rs.Machine.Resolved.{
  named_nodes, first_nodes, no_answers, answers, Adds, add_inputs-Adds,
}

pub first_nodes-AreFresh :
    (seen : List Text) (nodes : List NodeConfig)
    → AreFresh seen (map machine_node_key (first_nodes seen nodes))
first_nodes-AreFresh seen [] = tt
first_nodes-AreFresh seen (node ∷ nodes) =
    let key = machine_node_key node in
    if_intro (λ ns. AreFresh seen (map machine_node_key ns)) (is_seen key seen)
      (λ h. first_nodes-AreFresh seen nodes) (λ h. (h, first_nodes-AreFresh (key ∷ seen) nodes))

first_nodes-IsKept :
    (seen : List Text) (nodes : List NodeConfig)
    → IsKept
        (λ _. false)
        machine_node_key
        seen
        (map machine_node_key (first_nodes seen nodes))
        nodes
first_nodes-IsKept seen [] = tt
first_nodes-IsKept seen (node ∷ nodes) =
    let key = machine_node_key node in
    if_intro
      (λ ns. IsKept (λ _. false) machine_node_key seen (map machine_node_key ns) (node ∷ nodes))
      (is_seen key seen) (λ h. (ground arith, first_nodes-IsKept seen nodes))
      (λ h. (
        ground (arith, (text_eq_iff key key).1 refl),
        moved-IsKept (λ _. false) machine_node_key key seen
            (map machine_node_key (first_nodes (key ∷ seen) nodes)) nodes
            (first_nodes-IsKept (key ∷ seen) nodes),
      ))

abbrev pub AreAmong : List Text → List NodeConfig → Type 0
AreAmong keys nodes = All (λ node. is_seen (machine_node_key node) keys ≡ true) nodes

kept-AreAmong :
    (keys : List Text) (nodes : List NodeConfig)
    → IsKept (λ _. false) machine_node_key [] keys nodes
    → AreAmong keys nodes
kept-AreAmong keys [] h = tt
kept-AreAmong keys (node ∷ nodes) (h, hs) = (ground arith, kept-AreAmong keys nodes hs)

pub record IsResolved (inputs : List MachineProfileInput) (s : MachineResolveSummary) : Type 0 where
  pub first : s.nodes ≡ first_nodes [] (named_nodes inputs)
  pub fresh : AreFresh [] (map machine_node_key s.nodes)
  pub kept : AreAmong (map machine_node_key s.nodes) (named_nodes inputs)
  pub counted : length s.failures + length s.nodes ≡ length (named_nodes inputs) + no_answers inputs

pub settled-Yields :
    (P : MachineResolveSummary → Type 0) (r : Resolving)
    → P r.summary
    → P (record r.summary { subscription_proxy_only = true })
    → Yields P (settled_summary r)
unfolding settled_summary
settled-Yields P r h k =
    if_intro (Yields P) (is_empty r.summary.nodes)
      (λ _.
        if_intro (Yields P) (ltb 0 r.successes && can_run_subscription_proxy_only r.summary.agent)
          (λ _. of_value k)
          (λ _. if_intro (Yields P) (ltb 0 r.successes) (λ _. of_value h) (λ _. of_error)))
      (λ _. of_value h)

-- The nodes of the summary, if there is one, are the first of each key that the answers name, and no
-- others: no two have the same key, and each that is named is there by its key. A node that is named
-- again and a profile that is not answered are a failure each, so that none is lost.
pub resolve_machine_profiles-IsResolved :
    (inputs : List MachineProfileInput) (continue_on_error : Bool)
    → Ensures (IsResolved inputs) (resolve_machine_profiles inputs continue_on_error)
unfolding resolve_machine_profiles
resolve_machine_profiles-IsResolved inputs c =
    let P = Adds (named_nodes inputs) (no_answers inputs) (answers inputs) nothing_resolved in
    Yields-Ensures (
      then-Yields P (IsResolved inputs) (add_inputs c inputs nothing_resolved) settled_summary
        (add_inputs-Adds c inputs nothing_resolved)
        (λ r x.
          let resolved : (only : Bool)
              → IsResolved inputs (record r.summary { subscription_proxy_only = only }) =
            λ only. record {
              first = x.nodes_added;
              fresh =
                  subst (λ ns. AreFresh [] (map machine_node_key ns)) (sym x.nodes_added)
                    (first_nodes-AreFresh [] (named_nodes inputs));
              kept =
                  subst (λ ns. AreAmong (map machine_node_key ns) (named_nodes inputs))
                    (sym x.nodes_added)
                    (kept-AreAmong _ (named_nodes inputs)
                      (first_nodes-IsKept [] (named_nodes inputs)));
              counted = omega (arith, x.counted);
            } in
          settled-Yields (IsResolved inputs) r (resolved r.summary.subscription_proxy_only)
            (resolved true)))
