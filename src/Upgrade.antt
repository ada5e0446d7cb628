-- ===== src/Upgrade.antt =====
-- src/upgrade.rs: the state of the one upgrade that the node knows of, and its requests. The launch
-- plan is a shell script made from the version, the component and the source; here the executor is
-- given these three, since a request only passes the plan on.
pub mod Requests
pub mod Quoting
mod Tests
use kelinode_rs.Prelude.{
  ℕ, Bool, true, false, not, ◌&&◌, ◌||◌, Option, none, some, List, [], ◌∷◌, ◌++◌, map, leb, ◌==◌,
  if◌then◌else◌, is_empty, all, take,
}
use kelinode_rs.Prelude.Text.{
  Text, text, text_eq, trim, trim_start, trim_end, to_lower, is_alphanumeric, len,
}
use kelinode_rs.Prelude.Int.{ℤ, pos}
use kelinode_rs.Prelude.Result.{Result, ok, err, ◌>>=◌}
use kelinode_rs.Runner.{MachineUpgradeCommand}

pub record UpgradeStatus : Type 0 where
  pub id : Text
  pub status : Text
  pub component : Text
  pub target_version : Text
  pub error : Text
  pub started_at : ℤ
  pub finished_at : ℤ
  pub updated_at : ℤ

pub record ReleaseSource : Type 0 where
  pub source : Text
  pub base_url : Text
  pub machine_id : Text
  pub machine_token : Text

pub data UpgradeComponent : Type 0 where
  node core : UpgradeComponent

pub record UpgradeManager : Type 0 where
  pub status : Option UpgradeStatus

-- `launch` of the plan for a version, a component and a source.
pub record UpgradeExecutor (E : Type 0) : Type 0 where
  pub launch : Text → UpgradeComponent → ReleaseSource → E → Result Text (Unit {0}) × E

unfoldable pub from_command_value : Text → Result Text UpgradeComponent
from_command_value raw =
    let value = map to_lower (trim raw) in
    if is_empty value
      || (text_eq value (text "node")
          || (text_eq value (text "agent")
              || (text_eq value (text "v2node")
                  || (text_eq value (text "kelinode") || text_eq value (text "kelinode-rs")))))
    then ok node
    else if text_eq value (text "core")
        || (text_eq value (text "keli-core") || text_eq value (text "keli-core-rs"))
    then ok core
    else err (text "invalid upgrade component")

abbrev pub status_name : UpgradeComponent → Text
status_name node = text "node"
status_name core = text "core"

abbrev pub is_slash : ℕ → Bool
is_slash c = c == b'/'

unfoldable pub from_command : MachineUpgradeCommand → ReleaseSource
from_command command = record {
  source = trim command.release_source;
  base_url = trim_end is_slash (trim command.release_base_url);
  machine_id = trim command.release_auth.machine_id;
  machine_token = trim command.release_auth.machine_token;
}

abbrev pub is_version_character : ℕ → Bool
is_version_character c = is_alphanumeric c || (c == b'.' || (c == b'_' || c == b'-'))

unfoldable pub valid_kelinode_version : Text → Bool
valid_kelinode_version raw = elim (trim raw) [
  | [] ↦ false
  | first ∷ rest ↦
      if not (is_alphanumeric first) && (not (first == b'v') && not (first == b'V'))
      then false
      else leb (len (first ∷ rest)) 64 && all is_version_character (first ∷ rest)
]

abbrev pub is_v : ℕ → Bool
is_v c = c == b'v' || c == b'V'

unfoldable pub trim_version_prefix : Text → Text
trim_version_prefix value = trim_start is_v (trim value)

unfoldable pub versions_equal : Text → Text → Bool
unfolding trim_version_prefix
versions_equal current target = text_eq (trim_version_prefix current) (trim_version_prefix target)

unfoldable pub truncate_upgrade_error : Text → Text
truncate_upgrade_error raw =
    let value = trim raw in if leb (len value) 1000 then value else take 1000 value

-- `matches!(status.status.as_str(), "running" | "succeeded")`
abbrev pub is_settled : UpgradeStatus → Bool
is_settled status =
    text_eq status.status (text "running") || text_eq status.status (text "succeeded")

-- The status that answers a request of an upgrade that runs or has succeeded.
abbrev pub known : Text → Option UpgradeStatus → Option UpgradeStatus
known id none = none
known id (some status) = if text_eq status.id id && is_settled status then some status else none

abbrev pub is_node : UpgradeComponent → Bool
is_node node = true
is_node core = false

abbrev pub started : Text → UpgradeComponent → Text → ℤ → UpgradeStatus
started id component target_version now = record {
  id = id;
  status = text "running";
  component = status_name component;
  target_version = target_version;
  error = [];
  started_at = now;
  finished_at = pos 0;
  updated_at = now;
}

abbrev pub Answer : Type 0
Answer = Result Text (Option UpgradeStatus)

module _ {E : Type 0} (executor : UpgradeExecutor E) where
  abbrev pub answered : UpgradeStatus → E → Answer × UpgradeManager × E
  answered status e = (ok (some status), record { status = some status }, e)

  -- The part of `request` after its checks.
  unfoldable pub start :
      Text → Text → UpgradeComponent → ReleaseSource → Text → ℤ → E → Answer × UpgradeManager × E
  unfolding versions_equal truncate_upgrade_error
  start id target_version component source current_version now e =
      let status = started id component target_version now in
      let (launched, e1) = executor.launch target_version component source e in
      if is_node component && versions_equal current_version target_version
      then answered (record status { status = text "succeeded"; finished_at = now }) e
      else elim launched as (λ _. Answer × UpgradeManager × E) [
        | err error ↦
            answered
              (record status {
                status = text "failed";
                error = truncate_upgrade_error error;
                finished_at = now;
                updated_at = now;
              })
              e1
        | ok _ ↦ answered status e1
      ]

  -- `request` for a component that is known.
  unfoldable pub request_for :
      UpgradeComponent
      → UpgradeManager
      → MachineUpgradeCommand
      → Text
      → ℤ
      → E
      → Answer × UpgradeManager × E
  unfolding start valid_kelinode_version from_command
  request_for component manager command current_version now e =
      let id = trim command.id in
      let target_version = trim command.target_version in
      if is_empty id || not (valid_kelinode_version target_version)
      then (err (text "invalid upgrade command"), manager, e)
      else elim (known id manager.status) as (λ _. Answer × UpgradeManager × E) [
        | some status ↦ (ok (some status), manager, e)
        | none ↦ start id target_version component (from_command command) current_version now e
      ]

  unfoldable pub request :
      UpgradeManager → MachineUpgradeCommand → Text → ℤ → E → Answer × UpgradeManager × E
  unfolding request_for from_command_value
  request manager command current_version now e = elim (from_command_value command.component) [
    | err error ↦ (err error, manager, e)
    | ok component ↦ request_for component manager command current_version now e
  ]

-- `value.replace('\'', "'\"'\"'")`
unfoldable pub quote_body : Text → Text
quote_body [] = []
quote_body (c ∷ value) =
    let rest = quote_body value in if c == b'\'' then text "'\"'\"'" ++ rest else c ∷ rest

unfoldable pub shell_quote : Text → Text
unfolding quote_body
shell_quote value = b'\'' ∷ (quote_body value ++ b'\'' ∷ [])
