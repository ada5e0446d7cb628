-- ===== src/Machine/Names.antt =====
-- The names that src/machine.rs gives to profiles and their nodes, and the directories of the nodes.
use kelinode_rs.Prelude.{
  ℕ, Bool, true, false, not, ◌&&◌, ◌||◌, Option, none, some, [], ◌∷◌, ◌++◌, ltb, ◌==◌,
  if◌then◌else◌, is_empty,
}
use kelinode_rs.Prelude.Text.{Text, text, trim, trim_end, trim_matches, is_alphanumeric}
use kelinode_rs.Prelude.Str.{split_once_text}
use kelinode_rs.Prelude.Decimal.{decimal}
use kelinode_rs.SubscriptionProxy.Paths.{is_slash}
use kelinode_rs.Machine.{MachineProfileConfig, NodeConfig, default_config_dir}

abbrev pub without_slashes : Text → Text
without_slashes url = trim_end is_slash url

-- Both values are trimmed, unlike those of the function of this name in the proxy.
unfoldable pub first_non_empty : Text → Text → Text
first_non_empty first fallback = if is_empty (trim first) then trim fallback else trim first

unfoldable pub fill_if_empty : Text → Text → Text
fill_if_empty target value = if is_empty (trim target) then trim value else target

unfoldable pub machine_profile_label : MachineProfileConfig → Text
machine_profile_label profile =
    if not (is_empty (trim profile.name))
    then trim profile.name
    else if ltb 0 profile.machine_id
    then text "machine-" ++ decimal profile.machine_id
    else without_slashes profile.url

abbrev pub is_allowed : ℕ → Bool
is_allowed c = is_alphanumeric c || (c == b'.' || (c == b'_' || c == b'-'))

-- The loop over the characters with `last_dash`.
unfoldable pub sanitized : Bool → Text → Text
sanitized last_dash [] = []
sanitized last_dash (c ∷ s) =
    let kept = sanitized false s in
    let dashed = sanitized true s in
    if is_allowed c then c ∷ kept else if last_dash then dashed else b'-' ∷ dashed

abbrev pub is_dash : ℕ → Bool
is_dash c = c == b'-'

unfoldable pub sanitize_machine_profile_name : Text → Text
sanitize_machine_profile_name name =
    let trimmed = trim_matches is_dash (sanitized false (trim name)) in
    if is_empty trimmed then text "machine" else trimmed

abbrev is_separator : ℕ → Bool
is_separator c = c == b'/' || c == b'\\'

unfoldable pub machine_profile_node_config_dir : MachineProfileConfig → ℕ → Text
machine_profile_node_config_dir profile node_id =
    let label = sanitize_machine_profile_name (machine_profile_label profile) in
    let root =
      if is_empty (trim profile.config_dir)
      then default_config_dir ++ b'/' ∷ label
      else trim_end is_separator profile.config_dir in
    root ++ (text "/node-" ++ decimal node_id)

unfoldable pub machine_node_key : NodeConfig → Text
machine_node_key node =
    without_slashes node.url ++ b'#' ∷ (decimal node.machine_id ++ b'#' ∷ decimal node.node_id)

abbrev pub has_parts : Option (Text × Text) → Bool
has_parts none = false
has_parts (some (scheme, rest)) =
    not (is_empty scheme) && not (is_empty (trim_matches is_slash rest))

unfoldable pub valid_subscription_proxy_profile : Text → Text → Bool
valid_subscription_proxy_profile site_id upstream_base_url =
    let upstream = without_slashes upstream_base_url in
    not (is_empty (trim site_id))
    && (not (is_empty upstream) && has_parts (split_once_text (text "://") upstream))
