-- ===== src/Machine/Answered.antt =====
-- When src/machine.rs has a summary of the profiles of a machine.
use mathlib.Core.Path.{subst}
use kelinode_rs.Prelude.{
  map, length, ◌≤◌, ◌+◌, Bool, true, false, not, ◌||◌, List, [], ◌∷◌, ◌++◌, ltb, is_empty, any, all,
  ◌≡◌, refl, ap, ◌∙◌, arith, if_intro, Bool-cases, inl, inr,
}
use kelinode_rs.Prelude.Text.{Text}
use kelinode_rs.Prelude.Result.{
  Result, ok, err, is_ok, ◌>>=◌, Ensures, Yields, of_value, of_error, then-Yields, map-Yields,
  Yields-Ensures,
}
use kelinode_rs.SubscriptionProxy.Normalize.{is_seen}
use kelinode_rs.Machine.{
  NodeConfig, MachineProfileConfig, MachineNodesResponse, MachineProfileInput,
  MachineResolveSummary,
}
use kelinode_rs.Machine.Names.{machine_node_key}
use kelinode_rs.Machine.Resolve.{
  Resolving, nothing_resolved, add_inputs, add_node, add_nodes, add_result, answered, push_failure,
  push_node, failure_of, duplicate, resolve_machine_profile_result, settled_summary,
  resolve_machine_profiles,
}
use kelinode_rs.Machine.Summary.{settled-Yields, first_nodes-AreFresh}
use kelinode_rs.SubscriptionProxy.Normalize.Profiles.{AreFresh}
use kelinode_rs.Machine.Resolved.{
  named_nodes, nodes_of, first_nodes, no_answers, answers, answer, Adds, add_inputs-Adds,
}

abbrev pub is_answered : MachineProfileInput → Bool
is_answered input = is_ok input.result

some_answers : (inputs : List MachineProfileInput) → ltb 0 (answers inputs) ≡ any is_answered inputs
some_answers [] = refl
some_answers (input ∷ inputs) =
    elim input.result
      as (λ result.
        ltb 0 (answer result + answers inputs) ≡ (is_ok result || any is_answered inputs)) [
          | ok _ ↦ ground arith
          | err _ ↦ ground (arith, some_answers inputs)
        ]

named_without_answer :
    (inputs : List MachineProfileInput) → any is_answered inputs ≡ false → named_nodes inputs ≡ []
named_without_answer [] = λ _. refl
named_without_answer (input ∷ inputs) =
    elim input.result
      as (λ result.
        (is_ok result || any is_answered inputs) ≡ false
        → nodes_of input.profile result ++ named_nodes inputs ≡ []) [
          | ok _ ↦ λ h. cc
          | err _ ↦ λ h. named_without_answer inputs h
        ]

settled_ok :
    (r : Resolving)
    → is_ok (settled_summary r) ≡ (not (is_empty r.summary.nodes) || ltb 0 r.successes)
unfolding settled_summary
settled_ok r = ground arith

add_nodes_ok :
    (profile : MachineProfileConfig) (nodes : List NodeConfig) (r : Resolving)
    → is_ok (add_nodes true profile nodes r) ≡ true
unfolding add_nodes add_node
add_nodes_ok profile [] r = refl
add_nodes_ok profile (node ∷ nodes) r =
    let key = machine_node_key node in
    let f = failure_of profile (duplicate key) in
    if_intro (λ m. is_ok (m >>= add_nodes true profile nodes) ≡ true) (is_seen key r.seen_nodes)
      (λ _. add_nodes_ok profile nodes (push_failure f r))
      (λ _. add_nodes_ok profile nodes (push_node node r))

then_ok :
    {E A B : Type 0} (m : Result E A) (k : A → Result E B)
    → is_ok m ≡ true
    → ((a : A) → is_ok (k a) ≡ true)
    → is_ok (m >>= k) ≡ true
then_ok (ok a) k h hk = hk a
then_ok (err e) k h hk = cc

add_inputs_ok :
    (inputs : List MachineProfileInput) (r : Resolving) → is_ok (add_inputs true inputs r) ≡ true
unfolding add_inputs resolve_machine_profile_result
add_inputs_ok [] r = refl
add_inputs_ok (input ∷ inputs) r =
    then_ok (add_result true input.profile input.result r) (add_inputs true inputs)
      (elim input.result as (λ result. is_ok (add_result true input.profile result r) ≡ true) [
        | err e ↦ refl
        | ok response ↦
            let resolved = resolve_machine_profile_result input.profile response in
            add_nodes_ok input.profile resolved.nodes (answered resolved r)
      ])
      (add_inputs_ok inputs)

resolved_ok :
    (inputs : List MachineProfileInput) (m : Result Text Resolving)
    → is_ok m ≡ true
    → Yields (Adds (named_nodes inputs) (no_answers inputs) (answers inputs) nothing_resolved) m
    → is_ok (m >>= settled_summary) ≡ any is_answered inputs
resolved_ok inputs (err e) h y = cc
resolved_ok inputs (ok r) h (of_value x) =
    settled_ok r ∙ elim (Bool-cases (any is_answered inputs)) [
      | inl some_answer ↦ ground (arith, some_answers inputs, x.successes_added)
      | inr no_one ↦
          (let empty : r.summary.nodes ≡ [] =
              x.nodes_added ∙ ap (first_nodes []) (named_without_answer inputs no_one) in
            rw empty (ground (arith, some_answers inputs, x.successes_added)))
    ]

-- The result of a loop that does not go on after an error.
abbrev IsUnbroken : Resolving → Resolving → Type 0
IsUnbroken r r1 = r1.summary.failures ≡ r.summary.failures

add_nodes-IsUnbroken :
    (profile : MachineProfileConfig) (nodes : List NodeConfig) (r : Resolving)
    → Yields (IsUnbroken r) (add_nodes false profile nodes r)
unfolding add_nodes add_node
add_nodes-IsUnbroken profile [] r = of_value refl
add_nodes-IsUnbroken profile (node ∷ nodes) r =
    if_intro (λ m. Yields (IsUnbroken r) (m >>= add_nodes false profile nodes))
      (is_seen (machine_node_key node) r.seen_nodes) (λ _. of_error)
      (λ _. add_nodes-IsUnbroken profile nodes (push_node node r))

abbrev AllAnswered : List MachineProfileInput → Resolving → Resolving → Type 0
AllAnswered inputs r r1 = IsUnbroken r r1 × (all is_answered inputs ≡ true)

add_result-IsUnbroken :
    (profile : MachineProfileConfig) (result : Result Text MachineNodesResponse) (r : Resolving)
    → Yields (λ r1. IsUnbroken r r1 × (is_ok result ≡ true)) (add_result false profile result r)
unfolding resolve_machine_profile_result
add_result-IsUnbroken profile (err e) r = of_error
add_result-IsUnbroken profile (ok response) r =
    let resolved = resolve_machine_profile_result profile response in
    let r0 = answered resolved r in
    map-Yields (IsUnbroken r0) (λ r1. IsUnbroken r r1 × (true ≡ true))
      (add_nodes false profile resolved.nodes r0) (λ r1 h. (h, refl))
      (add_nodes-IsUnbroken profile resolved.nodes r0)

add_inputs-AllAnswered :
    (inputs : List MachineProfileInput) (r : Resolving)
    → Yields (AllAnswered inputs r) (add_inputs false inputs r)
unfolding add_inputs
add_inputs-AllAnswered [] r = of_value (refl, refl)
add_inputs-AllAnswered (input ∷ inputs) r =
    then-Yields (λ r1. IsUnbroken r r1 × (is_ok input.result ≡ true))
      (AllAnswered (input ∷ inputs) r) (add_result false input.profile input.result r)
      (add_inputs false inputs) (add_result-IsUnbroken input.profile input.result r)
      (λ r1 x.
        map-Yields (AllAnswered inputs r1) (AllAnswered (input ∷ inputs) r)
          (add_inputs false inputs r1) (λ r2 y. (y.0 ∙ x.0, ground (arith, x.1, y.1)))
          (add_inputs-AllAnswered inputs r1))

-- Every profile is answered, nothing failed, the nodes are those that the answers name, and no two
-- of them have one key.
pub record IsComplete (inputs : List MachineProfileInput) (s : MachineResolveSummary) : Type 0 where
  pub unbroken : s.failures ≡ []
  pub all_answered : all is_answered inputs ≡ true
  pub whole : s.nodes ≡ named_nodes inputs
  pub fresh : AreFresh [] (map machine_node_key (named_nodes inputs))

first_nodes-short :
    (seen : List Text) (nodes : List NodeConfig) → length (first_nodes seen nodes) ≤ length nodes
first_nodes-short seen [] = omega arith
first_nodes-short seen (node ∷ nodes) =
    let key = machine_node_key node in
    if_intro (λ (ns : List NodeConfig). length ns ≤ length (node ∷ nodes)) (is_seen key seen)
      (λ _. omega (arith, first_nodes-short seen nodes))
      (λ _. omega (arith, first_nodes-short (key ∷ seen) nodes))

-- If none of the nodes is left out, then none is named twice.
first_nodes-whole :
    (seen : List Text) (nodes : List NodeConfig)
    → length nodes ≤ length (first_nodes seen nodes)
    → first_nodes seen nodes ≡ nodes
first_nodes-whole seen [] = λ h. refl
first_nodes-whole seen (node ∷ nodes) =
    let key = machine_node_key node in
    if_intro (λ (ns : List NodeConfig). length (node ∷ nodes) ≤ length ns → ns ≡ node ∷ nodes)
      (is_seen key seen) (λ _ h. absurd (omega (arith, first_nodes-short seen nodes)))
      (λ _ h. ap (λ ns. node ∷ ns) (first_nodes-whole (key ∷ seen) nodes (omega arith)))

both-Yields :
    {A : Type 0} (P Q : A → Type 0) (m : Result Text A)
    → Yields P m
    → Yields Q m
    → Yields (λ a. P a × Q a) m
both-Yields P Q (ok a) (of_value h) (of_value k) = of_value (h, k)
both-Yields P Q (err e) h k = of_error

complete :
    (inputs : List MachineProfileInput) (r : Resolving) (s : MachineResolveSummary)
    → s.failures ≡ r.summary.failures
    → s.nodes ≡ r.summary.nodes
    → AllAnswered inputs nothing_resolved r
    → Adds (named_nodes inputs) (no_answers inputs) (answers inputs) nothing_resolved r
    → IsComplete inputs s
complete inputs r s same_failures same_nodes (unbroken, answered) adds =
    let none_failed : r.summary.failures ≡ [] = unbroken in
    let enough : length (named_nodes inputs) ≤ length (first_nodes [] (named_nodes inputs)) =
      omega (arith, adds.counted, ap length none_failed, ap length adds.nodes_added) in
    let whole = first_nodes-whole [] (named_nodes inputs) enough in
    record {
      unbroken = same_failures ∙ none_failed;
      all_answered = answered;
      whole = same_nodes ∙ adds.nodes_added ∙ whole;
      fresh =
          subst (λ ns. AreFresh [] (map machine_node_key ns)) whole
            (first_nodes-AreFresh [] (named_nodes inputs));
    }

-- If errors do not stop it, the resolution has a summary exactly if some profile is answered. If they
-- do, it has one only if every profile is answered and no two of the nodes that the answers name have
-- one key; then its nodes are those, in their order, and there is no failure.
pub resolve_machine_profiles_answered :
    (inputs : List MachineProfileInput)
    → (is_ok (resolve_machine_profiles inputs true) ≡ any is_answered inputs)
      × Ensures (IsComplete inputs) (resolve_machine_profiles inputs false)
unfolding resolve_machine_profiles
resolve_machine_profiles_answered inputs = (
  resolved_ok inputs (add_inputs true inputs nothing_resolved)
      (add_inputs_ok inputs nothing_resolved) (add_inputs-Adds true inputs nothing_resolved),
  Yields-Ensures (
      then-Yields
        (λ r.
          AllAnswered inputs nothing_resolved r
          × Adds (named_nodes inputs) (no_answers inputs) (answers inputs) nothing_resolved r)
        (IsComplete inputs) (add_inputs false inputs nothing_resolved) settled_summary
        (both-Yields _ _ (add_inputs false inputs nothing_resolved)
          (add_inputs-AllAnswered inputs nothing_resolved)
          (add_inputs-Adds false inputs nothing_resolved))
        (λ r x.
          settled-Yields (IsComplete inputs) r (complete inputs r r.summary refl refl x.0 x.1) (
            complete inputs r (record r.summary { subscription_proxy_only = true }) refl refl x.0
              x.1))),
)
