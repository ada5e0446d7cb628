-- ===== src/User.antt =====
-- src/user.rs: the cached user list of a node and the changes that the panel sends, whole or as a
-- delta. A `UserList` is an `Arc<[UserInfo]>`, whose sharing plays no part: it is the list. Loops
-- that push to several vectors carry the code's result record as their state.
pub mod Lookup
pub mod Loops
pub mod Delta
pub mod Applied
pub mod Diff
pub mod Incremental
pub mod Agree
pub mod Sync
pub mod Owned
mod Tests
use kelinode_rs.Prelude.{
  ℕ, Bool, true, false, not, ◌&&◌, ◌||◌, Option, none, some, List, [], ◌∷◌, ◌++◌, map,
  if◌then◌else◌, ◌==◌, is_empty,
}
use kelinode_rs.Prelude.Text.{Text}
use kelinode_rs.Prelude.Int.{ℤ}
use kelinode_rs.Prelude.Order.{text_ord}
use kelinode_rs.BTreeMap.{BTreeMap, get, insert, remove, collect, values, contains_key}

-- panel/types.rs
pub record UserInfo : Type 0 where
  pub id : ℕ
  pub uuid : Text
  pub speed_limit : ℕ
  pub device_limit : ℕ

pub record UserDeltaBody : Type 0 where
  pub full : Bool
  pub revision : ℤ
  pub users : List UserInfo
  pub deleted : List UserInfo
  pub upsert : List UserInfo

pub record UserDeltaApplyResult : Type 0 where
  pub next : List UserInfo
  pub deleted_applied : List UserInfo
  pub added : List UserInfo
  pub updated : List UserInfo

pub record UserListDiff : Type 0 where
  pub deleted : List UserInfo
  pub added : List UserInfo
  pub updated : List UserInfo

pub record UserSyncState : Type 0 where
  pub revision : ℤ
  pub users : List UserInfo
  pub updated_at : Option Text

pub record UserSyncStepResult : Type 0 where
  pub state : UserSyncState
  pub diff : UserListDiff

pub data UserDeltaEntry : Type 0 where
  existing : UserInfo → UserDeltaEntry
  upserted : UserInfo → UserDeltaEntry

abbrev pub user : UserDeltaEntry → UserInfo
user (existing u) = u
user (upserted u) = u

-- `UserDeltaApplyResult::default()` and `UserListDiff::default()`
abbrev pub no_result : UserDeltaApplyResult
no_result = record { next = []; deleted_applied = []; added = []; updated = [] }

abbrev pub no_diff : UserListDiff
no_diff = record { deleted = []; added = []; updated = [] }

unfoldable pub user_changed : UserInfo → UserInfo → Bool
user_changed old new =
    not (old.id == new.id)
    || not (old.speed_limit == new.speed_limit)
    || not (old.device_limit == new.device_limit)

abbrev pub by_uuid : UserInfo → Text × UserInfo
by_uuid u = (u.uuid, u)

abbrev pub entry_by_uuid : UserInfo → Text × UserDeltaEntry
entry_by_uuid u = (u.uuid, existing u)

unfoldable pub user_refs_by_uuid : List UserInfo → BTreeMap Text UserInfo
user_refs_by_uuid users = collect (map by_uuid users)

unfoldable pub user_delta_entries_by_uuid : List UserInfo → BTreeMap Text UserDeltaEntry
user_delta_entries_by_uuid users = collect (map entry_by_uuid users)

-- The loops of `apply_user_delta` over `next_by_uuid` and `result`.
abbrev pub Deltas : Type 0
Deltas = BTreeMap Text UserDeltaEntry × UserDeltaApplyResult

-- `for user in deleted`
unfoldable pub delete_user : Deltas → UserInfo → Deltas
delete_user (next, result) u = elim (get u.uuid next) [
  | none ↦ (remove u.uuid next, result)
  | some old ↦ (
    remove u.uuid next,
    record result { deleted_applied = result.deleted_applied ++ user old ∷ [] },
  )
]

unfoldable pub delete_users : Deltas → List UserInfo → Deltas
delete_users st [] = st
delete_users st (u ∷ us) = delete_users (delete_user st u) us

-- `for user in upsert`
unfoldable pub upsert_user : Deltas → UserInfo → Deltas
upsert_user (next, result) u = elim (get u.uuid next) [
  | none ↦ (insert u.uuid (upserted u) next, record result { added = result.added ++ u ∷ [] })
  | some old ↦ (
    insert u.uuid (upserted u) next,
    if user_changed (user old) u
        then record result { updated = result.updated ++ u ∷ [] }
        else result,
  )
]

unfoldable pub upsert_users : Deltas → List UserInfo → Deltas
upsert_users st [] = st
upsert_users st (u ∷ us) = upsert_users (upsert_user st u) us

unfoldable pub apply_user_delta :
    List UserInfo → List UserInfo → List UserInfo → UserDeltaApplyResult
apply_user_delta old deleted upsert =
    let (next_by_uuid, result) =
      upsert_users (delete_users (user_delta_entries_by_uuid old, no_result) deleted) upsert in
    record result { next = map user (values next_by_uuid) }

-- The loop of `compare_user_list` over `old_map` and `diff`.
abbrev pub Compared : Type 0
Compared = BTreeMap Text UserInfo × UserListDiff

unfoldable pub compare_user : Compared → UserInfo → Compared
compare_user (old_map, diff) u = elim (get u.uuid old_map) [
  | none ↦ (remove u.uuid old_map, record diff { added = diff.added ++ u ∷ [] })
  | some old_user ↦ (
    remove u.uuid old_map,
    if user_changed old_user u then record diff { updated = diff.updated ++ u ∷ [] } else diff,
  )
]

unfoldable pub compare_users : Compared → List UserInfo → Compared
compare_users st [] = st
compare_users st (u ∷ us) = compare_users (compare_user st u) us

unfoldable pub compare_user_list : List UserInfo → List UserInfo → UserListDiff
compare_user_list old new =
    let (old_map, diff) = compare_users (user_refs_by_uuid old, no_diff) new in
    record diff { deleted = values old_map }

-- The loop of `compare_incremental_delta` over `upsert_map` and `diff`.
abbrev pub deleted_uuids : List UserInfo → BTreeMap Text (Unit {0})
deleted_uuids deleted = collect (map (λ u. (u.uuid, tt)) deleted)

unfoldable pub compare_old_user : List UserInfo → Compared → UserInfo → Compared
compare_old_user deleted (upsert_map, diff) u =
    if contains_key u.uuid (deleted_uuids deleted)
    then (upsert_map, record diff { deleted = diff.deleted ++ u ∷ [] })
    else elim (get u.uuid upsert_map) [
      | none ↦ (remove u.uuid upsert_map, diff)
      | some new_user ↦ (
        remove u.uuid upsert_map,
        if user_changed u new_user
            then record diff { updated = diff.updated ++ new_user ∷ [] }
            else diff,
      )
    ]

unfoldable pub compare_old_users : List UserInfo → Compared → List UserInfo → Compared
compare_old_users deleted st [] = st
compare_old_users deleted st (u ∷ us) = compare_old_users deleted (compare_old_user deleted st u) us

unfoldable pub compare_incremental_delta :
    List UserInfo → List UserInfo → List UserInfo → UserListDiff
compare_incremental_delta old deleted upsert =
    let (upsert_map, diff) = compare_old_users deleted (user_refs_by_uuid upsert, no_diff) old in
    record diff { added = values upsert_map }

-- User/Owned has `apply_user_delta_body_owned`, which takes the delta by value.
unfoldable pub apply_user_delta_body : UserSyncState → UserDeltaBody → UserSyncStepResult
apply_user_delta_body state delta =
    let next_state : UserSyncState = record state { revision = delta.revision } in
    let applied = apply_user_delta state.users delta.deleted delta.upsert in
    if delta.full
    then if is_empty delta.users then record { state = next_state; diff = no_diff } else record {
      state = record next_state { users = delta.users };
      diff = compare_user_list state.users delta.users;
    }
    else if is_empty delta.deleted && is_empty delta.upsert
    then record { state = next_state; diff = no_diff }
    else record {
      state = record next_state { users = applied.next };
      diff = record {
        deleted = applied.deleted_applied;
        added = applied.added;
        updated = applied.updated;
      };
    }

unfoldable pub user_delta_body_diff : UserSyncState → UserDeltaBody → UserListDiff
user_delta_body_diff state delta =
    if delta.full
    then if is_empty delta.users then no_diff else compare_user_list state.users delta.users
    else compare_incremental_delta state.users delta.deleted delta.upsert

-- User/Owned has `apply_full_user_list_owned`, which takes the list by value.
unfoldable pub apply_full_user_list : UserSyncState → List UserInfo → UserSyncStepResult
apply_full_user_list state users =
    if is_empty users then record { state = state; diff = no_diff } else record {
      state = record state { users = users };
      diff = compare_user_list state.users users;
    }
