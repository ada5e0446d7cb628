-- ===== src/Machine/Resolved.antt =====
-- What src/machine.rs resolves the profiles of a machine to.
use kelinode_rs.Prelude.{
  ℕ, ◌+◌, Bool, true, false, List, [], ◌∷◌, ◌++◌, map, if◌then◌else◌, keep, length, length-append,
  append_assoc, append-nil, ◌≡◌, refl, sym, ap, ◌∙◌, arith, if_intro,
}
use kelinode_rs.Prelude.Text.{Text}
use kelinode_rs.Prelude.Result.{
  Result, ok, err, Yields, of_value, of_error, then-Yields, map-Yields,
}
use kelinode_rs.SubscriptionProxy.Normalize.{is_seen}
use kelinode_rs.Machine.{
  NodeConfig, MachineProfileConfig, MachineNodesResponse, MachineProfileInput,
  MachineResolveFailure, MachineResolveResult,
}
use kelinode_rs.Machine.Names.{machine_node_key}
use kelinode_rs.Machine.Resolve.{
  Resolving, has_id, node_config, failed, failure_of, push_failure, push_node, duplicate, add_node,
  add_nodes, answered, add_result, add_inputs, resolve_machine_profile_result,
}

-- The nodes that the panels of the profiles name.
abbrev pub nodes_of : MachineProfileConfig → Result Text MachineNodesResponse → List NodeConfig
nodes_of profile (err e) = []
nodes_of profile (ok response) = map (node_config profile) (keep has_id response.nodes)

abbrev pub named_nodes : List MachineProfileInput → List NodeConfig
named_nodes [] = []
named_nodes (input ∷ inputs) = nodes_of input.profile input.result ++ named_nodes inputs

-- The first node of each key that is not seen before.
abbrev pub first_nodes : List Text → List NodeConfig → List NodeConfig
first_nodes seen [] = []
first_nodes seen (node ∷ nodes) =
    let skipped = first_nodes seen nodes in
    let rest = first_nodes (machine_node_key node ∷ seen) nodes in
    if is_seen (machine_node_key node) seen then skipped else node ∷ rest

abbrev pub seen_after : List Text → List NodeConfig → List Text
seen_after seen [] = seen
seen_after seen (node ∷ nodes) =
    let skipped = seen_after seen nodes in
    let rest = seen_after (machine_node_key node ∷ seen) nodes in
    if is_seen (machine_node_key node) seen then skipped else rest

first_nodes-append :
    (seen : List Text) (a b : List NodeConfig)
    → first_nodes seen (a ++ b) ≡ first_nodes seen a ++ first_nodes (seen_after seen a) b
first_nodes-append seen [] b = refl
first_nodes-append seen (node ∷ a) b =
    ground
      (arith, first_nodes-append seen a b, first_nodes-append (machine_node_key node ∷ seen) a b)

seen_after-append :
    (seen : List Text) (a b : List NodeConfig)
    → seen_after seen (a ++ b) ≡ seen_after (seen_after seen a) b
seen_after-append seen [] b = refl
seen_after-append seen (node ∷ a) b =
    ground (arith, seen_after-append seen a b, seen_after-append (machine_node_key node ∷ seen) a b)

-- The number of inputs with an answer, and of those without.
abbrev pub answer : Result Text MachineNodesResponse → ℕ
answer (ok _) = 1
answer (err _) = 0

abbrev pub no_answer : Result Text MachineNodesResponse → ℕ
no_answer (ok _) = 0
no_answer (err _) = 1

abbrev pub answers : List MachineProfileInput → ℕ
answers [] = 0
answers (input ∷ inputs) = answer input.result + answers inputs

abbrev pub no_answers : List MachineProfileInput → ℕ
no_answers [] = 0
no_answers (input ∷ inputs) = no_answer input.result + no_answers inputs

-- How a part of the loop moves the state, which is given some nodes, fails to be answered some times
-- and is answered some times.
pub record Adds (nodes : List NodeConfig) (lost won : ℕ) (r r1 : Resolving) : Type 0 where
  pub nodes_added : r1.summary.nodes ≡ r.summary.nodes ++ first_nodes r.seen_nodes nodes
  pub seen_added : r1.seen_nodes ≡ seen_after r.seen_nodes nodes
  pub counted :
      length r1.summary.failures + length r1.summary.nodes
      ≡ (length r.summary.failures + length r.summary.nodes) + (length nodes + lost)
  pub successes_added : r1.successes ≡ r.successes + won

then-Adds :
    {a b : List NodeConfig} {l w l1 w1 : ℕ} (r r1 r2 : Resolving)
    → Adds a l w r r1
    → Adds b l1 w1 r1 r2
    → Adds (a ++ b) (l + l1) (w + w1) r r2
then-Adds {a} {b} {l} {w} {l1} {w1} r r1 r2 x y = record {
  nodes_added =
      y.nodes_added
      ∙ (ap (λ s. r1.summary.nodes ++ first_nodes s b) x.seen_added
          ∙ (ap (λ s. s ++ first_nodes (seen_after r.seen_nodes a) b) x.nodes_added
              ∙ (append_assoc r.summary.nodes (first_nodes r.seen_nodes a)
                    (first_nodes (seen_after r.seen_nodes a) b)
                  ∙ ap (λ s. r.summary.nodes ++ s) (sym (first_nodes-append r.seen_nodes a b)))));
  seen_added =
      y.seen_added
      ∙ (ap (λ s. seen_after s b) x.seen_added ∙ sym (seen_after-append r.seen_nodes a b));
  counted = omega (arith, x.counted, y.counted, length-append a b);
  successes_added = omega (arith, x.successes_added, y.successes_added);
}

failure-Adds : (f : MachineResolveFailure) (r : Resolving) → Adds [] 1 0 r (push_failure f r)
failure-Adds f r = record {
  nodes_added = sym (append-nil r.summary.nodes);
  seen_added = refl;
  counted = omega (arith, length-append r.summary.failures (f ∷ []));
  successes_added = omega arith;
}

duplicate-Adds :
    (f : MachineResolveFailure) (node : NodeConfig) (r : Resolving)
    → is_seen (machine_node_key node) r.seen_nodes ≡ true
    → Adds (node ∷ []) 0 0 r (push_failure f r)
duplicate-Adds f node r h = record {
  nodes_added = sym (rw h (append-nil r.summary.nodes));
  seen_added = rw h refl;
  counted = omega (arith, length-append r.summary.failures (f ∷ []));
  successes_added = omega arith;
}

push_node-Adds :
    (node : NodeConfig) (r : Resolving)
    → is_seen (machine_node_key node) r.seen_nodes ≡ false
    → Adds (node ∷ []) 0 0 r (push_node node r)
push_node-Adds node r h = record {
  nodes_added = rw h refl;
  seen_added = rw h refl;
  counted = omega (arith, length-append r.summary.nodes (node ∷ []));
  successes_added = omega arith;
}

failed-Yields :
    (c : Bool) (f : MachineResolveFailure) (P : Resolving → Type 0) (r : Resolving)
    → P (push_failure f r)
    → Yields P (failed c f r)
failed-Yields true f P r h = of_value h
failed-Yields false f P r h = of_error

add_node-Adds :
    (c : Bool) (profile : MachineProfileConfig) (node : NodeConfig) (r : Resolving)
    → Yields (Adds (node ∷ []) 0 0 r) (add_node c profile node r)
unfolding add_node
add_node-Adds c profile node r =
    let key = machine_node_key node in
    let P = Adds (node ∷ []) 0 0 r in
    let f = failure_of profile (duplicate key) in
    if_intro (Yields P) (is_seen key r.seen_nodes)
      (λ h. failed-Yields c f P r (duplicate-Adds f node r h))
      (λ h. of_value (push_node-Adds node r h))

add_nodes-Adds :
    (c : Bool) (profile : MachineProfileConfig) (nodes : List NodeConfig) (r : Resolving)
    → Yields (Adds nodes 0 0 r) (add_nodes c profile nodes r)
unfolding add_nodes
add_nodes-Adds c profile [] r = of_value (record {
  nodes_added = sym (append-nil r.summary.nodes);
  seen_added = refl;
  counted = omega arith;
  successes_added = omega arith;
})
add_nodes-Adds c profile (node ∷ nodes) r =
    then-Yields (Adds (node ∷ []) 0 0 r) (Adds (node ∷ nodes) 0 0 r) (add_node c profile node r)
      (add_nodes c profile nodes) (add_node-Adds c profile node r)
      (λ r1 x.
        map-Yields (Adds nodes 0 0 r1) (Adds (node ∷ nodes) 0 0 r) (add_nodes c profile nodes r1)
          (λ r2 y. then-Adds r r1 r2 x y) (add_nodes-Adds c profile nodes r1))

answered-Adds :
    (resolved : MachineResolveResult) (r : Resolving) → Adds [] 0 1 r (answered resolved r)
answered-Adds resolved r = record {
  nodes_added = sym (append-nil r.summary.nodes);
  seen_added = refl;
  counted = omega arith;
  successes_added = omega arith;
}

add_result-Adds :
    (c : Bool) (profile : MachineProfileConfig) (result : Result Text MachineNodesResponse)
    (r : Resolving)
    → Yields
        (Adds (nodes_of profile result) (no_answer result) (answer result) r)
        (add_result c profile result r)
unfolding resolve_machine_profile_result
add_result-Adds c profile (err e) r =
    let f = failure_of profile e in failed-Yields c f (Adds [] 1 0 r) r (failure-Adds f r)
add_result-Adds c profile (ok response) r =
    let resolved = resolve_machine_profile_result profile response in
    let r0 = answered resolved r in
    map-Yields (Adds resolved.nodes 0 0 r0) (Adds resolved.nodes 0 1 r)
      (add_nodes c profile resolved.nodes r0)
      (λ r1 x. then-Adds r r0 r1 (answered-Adds resolved r) x)
      (add_nodes-Adds c profile resolved.nodes r0)

pub add_inputs-Adds :
    (c : Bool) (inputs : List MachineProfileInput) (r : Resolving)
    → Yields
        (Adds (named_nodes inputs) (no_answers inputs) (answers inputs) r)
        (add_inputs c inputs r)
unfolding add_inputs
add_inputs-Adds c [] r = of_value (record {
  nodes_added = sym (append-nil r.summary.nodes);
  seen_added = refl;
  counted = omega arith;
  successes_added = omega arith;
})
add_inputs-Adds c (input ∷ inputs) r =
    let first =
      Adds (nodes_of input.profile input.result) (no_answer input.result) (answer input.result) r in
    let rest =
      λ (r1 : Resolving). Adds (named_nodes inputs) (no_answers inputs) (answers inputs) r1 in
    let all =
      Adds (named_nodes (input ∷ inputs)) (no_answers (input ∷ inputs)) (answers (input ∷ inputs))
        r in
    then-Yields first all (add_result c input.profile input.result r) (add_inputs c inputs)
      (add_result-Adds c input.profile input.result r)
      (λ r1 x.
        map-Yields (rest r1) all (add_inputs c inputs r1) (λ r2 y. then-Adds r r1 r2 x y)
          (add_inputs-Adds c inputs r1))
