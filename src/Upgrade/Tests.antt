-- ===== src/Upgrade/Tests.antt =====
-- Requests and quoting of src/upgrade.rs at small inputs, and the theorems at inputs that meet their
-- hypotheses.
use kelinode_rs.Prelude.{ℕ, ◌+◌, some, none, [], ◌≡◌, refl, ap}
use kelinode_rs.Prelude.Text.{text, text_eq, trim, is_alphanumeric, is_digit, len, to_lower}
use kelinode_rs.Prelude.Int.{pos}
use kelinode_rs.Prelude.Result.{ok}
use kelinode_rs.Runner.{MachineUpgradeCommand}
use kelinode_rs.Upgrade.{
  UpgradeStatus, UpgradeManager, UpgradeExecutor, UpgradeComponent, request, request_for, start,
  started, shell_quote, from_command_value, valid_kelinode_version,
}
use kelinode_rs.Upgrade.Quoting.{bare, read_word, read_word-shell_quote}
use kelinode_rs.Upgrade.Requests.{request_again}

-- The executor counts the launches.
abbrev counting : UpgradeExecutor ℕ
counting = record { launch = λ version component source e. (ok tt, e + 1) }

abbrev command : MachineUpgradeCommand
command = record {
  id = text "7";
  target_version = text "v1.2";
  component = text "core";
  release_source = [];
  release_base_url = [];
  release_auth = record { machine_id = []; machine_token = [] };
}

abbrev idle : UpgradeManager
idle = record { status = none }

abbrev running : UpgradeStatus
running = started (text "7") UpgradeComponent.core (text "v1.2") (pos 100)

launches :
    request counting idle command (text "v1.1") (pos 100) 0
    ≡ (ok (some running), record { status = some running }, 1)
unfolding request request_for start from_command_value valid_kelinode_version trim text_eq to_lower
    is_alphanumeric is_digit len
launches = refl

request_again_example :
    request counting
      (request counting idle command (text "v1.1") (pos 100) 0).1
      command
      (text "v1.1")
      (pos 200)
      1
    ≡ (ok (some running), (request counting idle command (text "v1.1") (pos 100) 0).1, 1)
request_again_example =
    request_again counting command idle running (text "v1.1") (text "v1.1") (pos 100) (pos 200) 0 1
      (ap (λ r. r.0) launches) (unfold text_eq in refl)

read_word-shell_quote_example :
    read_word bare (shell_quote (text "it's $HOME")) ≡ some (text "it's $HOME")
read_word-shell_quote_example = read_word-shell_quote (text "it's $HOME")
