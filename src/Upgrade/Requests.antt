-- ===== src/Upgrade/Requests.antt =====
-- What repeated requests of src/upgrade.rs do.
use kelinode_rs.Prelude.{
  Bool, true, false, not, ◌&&◌, ◌||◌, Option, none, some, if◌then◌else◌, is_empty, ◌≡◌, refl, ap,
  ◌∙◌, Bool-cases, inl, inr, if_intro,
}
use kelinode_rs.Prelude.Text.{Text, text, text_eq, text_eq_iff, trim}
use kelinode_rs.Prelude.Int.{ℤ}
use kelinode_rs.Prelude.Result.{Result, ok, err}
use kelinode_rs.Runner.{MachineUpgradeCommand}
use kelinode_rs.Upgrade.{
  UpgradeStatus, UpgradeManager, UpgradeExecutor, UpgradeComponent, ReleaseSource, Answer,
  is_settled, known, start, started, truncate_upgrade_error, is_node, from_command, answered,
  request_for, request, from_command_value, valid_kelinode_version, versions_equal,
}

abbrev value_of : Answer → Option UpgradeStatus
value_of (ok o) = o
value_of (err e) = none

abbrev settled_of : Option UpgradeStatus → Bool
settled_of none = false
settled_of (some s) = is_settled s

module _ {E : Type 0} (executor : UpgradeExecutor E) (command : MachineUpgradeCommand) where
  abbrev id : Text
  id = trim command.id

  -- An answer with a status is what the manager keeps.
  abbrev IsKept : Answer × UpgradeManager × E → Type 0
  IsKept r =
      (s : UpgradeStatus) → r.0 ≡ ok (some s) → is_settled s ≡ true → known id r.1.status ≡ some s

  IsKept-known :
      (status : UpgradeStatus) (e : E)
      → text_eq status.id id ≡ true
      → IsKept (ok (some status), record { status = some status }, e)
  IsKept-known status e h s same settled =
      let p : some status ≡ some s = ap value_of same in rw (h, ap settled_of p ∙ settled) p

  start-IsKept :
      (target_version : Text) (component : UpgradeComponent) (source : ReleaseSource)
      (current_version : Text) (now : ℤ) (e : E)
      → IsKept (start executor id target_version component source current_version now e)
  unfolding start
  start-IsKept target_version component source current_version now e =
      if_intro IsKept (is_node component && versions_equal current_version target_version)
        (λ _. IsKept-known _ e ((text_eq_iff id id).1 refl))
        (λ _. launched_cases (executor.launch target_version component source e).0)
    where
      launched_cases :
          (launched : Result Text (Unit {0}))
          → IsKept (elim launched as (λ _. Answer × UpgradeManager × E) [
            | err error ↦
                answered executor
                  (record (started id component target_version now) {
                    status = text "failed";
                    error = truncate_upgrade_error error;
                    finished_at = now;
                    updated_at = now;
                  })
                  (executor.launch target_version component source e).1
            | ok _ ↦
                answered executor
                  (started id component target_version now)
                  (executor.launch target_version component source e).1
          ])
      launched_cases (err error) =
          IsKept-known
            (record (started id component target_version now) {
              status = text "failed";
              error = truncate_upgrade_error error;
              finished_at = now;
              updated_at = now;
            })
            (executor.launch target_version component source e).1 ((text_eq_iff id id).1 refl)
      launched_cases (ok _) =
          IsKept-known (started id component target_version now)
            (executor.launch target_version component source e).1 ((text_eq_iff id id).1 refl)

  known_cases :
      (status : Option UpgradeStatus) (target_version : Text) (component : UpgradeComponent)
      (source : ReleaseSource) (current_version : Text) (now : ℤ) (e : E)
      → IsKept (elim (known id status) as (λ _. Answer × UpgradeManager × E) [
        | some s ↦ (ok (some s), record { status = status }, e)
        | none ↦ start executor id target_version component source current_version now e
      ])
  known_cases status target_version component source current_version now e =
      found_cases (known id status) refl
    where
      found_cases :
          (found : Option UpgradeStatus)
          → known id status ≡ found
          → IsKept (elim found as (λ _. Answer × UpgradeManager × E) [
            | some s ↦ (ok (some s), record { status = status }, e)
            | none ↦ start executor id target_version component source current_version now e
          ])
      found_cases none p = start-IsKept target_version component source current_version now e
      found_cases (some s') p = λ s same settled. p ∙ ap value_of same

  request_for-IsKept :
      (component : UpgradeComponent) (manager : UpgradeManager) (current_version : Text) (now : ℤ)
      (e : E)
      → IsKept (request_for executor component manager command current_version now e)
  unfolding request_for
  request_for-IsKept component manager current_version now e =
      if_intro IsKept (is_empty id || not (valid_kelinode_version (trim command.target_version)))
        (λ _ s same settled. cc)
        (λ _.
          known_cases manager.status (trim command.target_version) component (from_command command)
            current_version now e)

  refused_answer :
      (b : Bool) (x : Text) (y : Answer × UpgradeManager × E) (m : UpgradeManager) (e : E)
      (s : UpgradeStatus)
      → b ≡ true
      → (if b then (err x, m, e) else y).0 ≡ ok (some s)
      → ⊥
  refused_answer true x y m e s b h = cc
  refused_answer false x y m e s b h = cc

  -- A request that passed its checks passes them again, and finds the status that is kept.
  request_for-known :
      (component : UpgradeComponent) (m m' : UpgradeManager) (s : UpgradeStatus)
      (current current' : Text) (now now' : ℤ) (e e' : E)
      → (request_for executor component m command current now e).0 ≡ ok (some s)
      → known id m'.status ≡ some s
      → request_for executor component m' command current' now' e' ≡ (ok (some s), m', e')
  unfolding request_for
  request_for-known component m m' s current current' now now' e e' h k =
      elim (Bool-cases
        (is_empty id || not (valid_kelinode_version (trim command.target_version)))) [
          | inl refused ↦ absurd (refused_answer _ _ _ m e s refused h)
          | inr passed ↦ rw (passed, k) refl
        ]

  -- If a request is answered by a status that is running or has succeeded, then the same command
  -- again, whenever it comes, is answered by the same status, keeps the manager and launches
  -- nothing.
  pub request_again :
      (m : UpgradeManager) (s : UpgradeStatus) (current current' : Text) (now now' : ℤ) (e e' : E)
      → (request executor m command current now e).0 ≡ ok (some s)
      → is_settled s ≡ true
      → request executor (request executor m command current now e).1 command current' now' e'
        ≡ (ok (some s), (request executor m command current now e).1, e')
  unfolding request
  request_again m s current current' now now' e e' h settled =
      component_cases (from_command_value command.component) h
    where
      component_cases :
          (c : Result Text UpgradeComponent)
          → let r = (elim c as (λ _. Answer × UpgradeManager × E) [
            | err error ↦ (err error, m, e)
            | ok component ↦ request_for executor component m command current now e
          ]) in
            r.0 ≡ ok (some s)
            → (elim c as (λ _. Answer × UpgradeManager × E) [
              | err error ↦ (err error, r.1, e')
              | ok component ↦ request_for executor component r.1 command current' now' e'
            ])
              ≡ (ok (some s), r.1, e')
      component_cases (err error) h = cc
      component_cases (ok component) h =
          request_for-known component m (request_for executor component m command current now e).1 s
            current current' now now' e e' h
            (request_for-IsKept component m current now e s h settled)
