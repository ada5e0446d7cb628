-- ===== src/User/Owned.antt =====
-- src/user.rs: the two steps that take the panel's data by value. Ownership plays no part, so they
-- differ from the borrowing ones only in where their result is bound.
use kelinode_rs.Prelude.{List, ◌&&◌, if◌then◌else◌, is_empty, ◌≡◌, refl}
use kelinode_rs.User.{
  UserInfo, UserDeltaBody, UserSyncState, UserSyncStepResult, no_diff, apply_user_delta,
  apply_user_delta_body, compare_user_list, apply_full_user_list,
}

unfoldable pub apply_user_delta_body_owned : UserSyncState → UserDeltaBody → UserSyncStepResult
apply_user_delta_body_owned state delta =
    let next_state : UserSyncState = record state { revision = delta.revision } in
    let applied = apply_user_delta state.users delta.deleted delta.upsert in
    if delta.full
    then if is_empty delta.users then record { state = next_state; diff = no_diff } else record {
      state = record next_state { users = delta.users };
      diff = compare_user_list state.users delta.users;
    }
    else if is_empty delta.deleted && is_empty delta.upsert
    then record { state = next_state; diff = no_diff }
    else record {
      state = record next_state { users = applied.next };
      diff = record {
        deleted = applied.deleted_applied;
        added = applied.added;
        updated = applied.updated;
      };
    }

unfoldable pub apply_full_user_list_owned : UserSyncState → List UserInfo → UserSyncStepResult
apply_full_user_list_owned state users =
    let diff = compare_user_list state.users users in
    if is_empty users
    then record { state = state; diff = no_diff }
    else record { state = record state { users = users }; diff = diff }

apply_user_delta_body_owned_same :
    (state : UserSyncState) (delta : UserDeltaBody)
    → apply_user_delta_body_owned state delta ≡ apply_user_delta_body state delta
unfolding apply_user_delta_body_owned apply_user_delta_body
apply_user_delta_body_owned_same state delta = refl

apply_full_user_list_owned_same :
    (state : UserSyncState) (users : List UserInfo)
    → apply_full_user_list_owned state users ≡ apply_full_user_list state users
unfolding apply_full_user_list_owned apply_full_user_list
apply_full_user_list_owned_same state users = refl
