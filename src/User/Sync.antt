-- ===== src/User/Sync.antt =====
-- One step of the cached state of src/user.rs, `apply_user_delta_body` and `user_delta_body_diff`,
-- on every branch.
use kelinode_rs.Prelude.{
  true, false, Option, none, List, [], ◌∷◌, if◌then◌else◌, ◌≡◌, refl, ◌∙◌, arith, Bool-cases, inl,
  inr, ◌&&◌, is_empty,
}
use kelinode_rs.Prelude.Text.{Text}
use kelinode_rs.User.{
  UserInfo, UserDeltaBody, UserListDiff, UserSyncState, no_diff, apply_user_delta,
  apply_user_delta_body, user_delta_body_diff, compare_incremental_delta,
}
use kelinode_rs.User.Lookup.{or_else, last_user, has_uuid, IsDistinct}
use kelinode_rs.User.Applied.{last_user-apply_user_delta}
use kelinode_rs.User.Incremental.{
  last_user-announced_added, last_user-announced_deleted, last_user-announced_updated,
}
use kelinode_rs.User.Agree.{SameUsers, compare_incremental_delta-apply_user_delta}

-- What a delta asks for, read uuid by uuid; a full delta with no users asks for nothing.
abbrev pub wanted : UserDeltaBody → List UserInfo → Text → Option UserInfo
wanted delta old k =
    if delta.full
    then or_else_list delta.users (last_user k old)
    else or_else (last_user k delta.upsert)
        (if has_uuid k delta.deleted then none else last_user k old)
  where
    or_else_list : List UserInfo → Option UserInfo → Option UserInfo
    or_else_list [] o = o
    or_else_list (u ∷ us) o = last_user k (u ∷ us)

pub record Stepped (state : UserSyncState) (delta : UserDeltaBody) (next : UserSyncState)
    : Type 0 where
  pub revision : next.revision ≡ delta.revision
  pub updated_at : next.updated_at ≡ state.updated_at
  pub users : (k : Text) → last_user k next.users ≡ wanted delta state.users k

-- On every branch a step takes the delta's revision, keeps the time of the last update, and has
-- under each uuid the user that the delta asks for; a full delta without users keeps the old list.
pub apply_user_delta_body-Stepped :
    (state : UserSyncState) (delta : UserDeltaBody)
    → Stepped state delta (apply_user_delta_body state delta).state
unfolding apply_user_delta_body last_user
apply_user_delta_body-Stepped state delta = record {
  revision = ground arith;
  updated_at = ground arith;
  users = λ k. ground (arith, last_user-apply_user_delta state.users delta.deleted delta.upsert k);
}

abbrev pub SameDiff : UserListDiff → UserListDiff → Type 0
SameDiff d e =
    SameUsers d.deleted e.deleted × SameUsers d.added e.added × SameUsers d.updated e.updated

SameDiff-refl : (d : UserListDiff) → SameDiff d d
SameDiff-refl d = ((λ k. refl), (λ k. refl), (λ k. refl))

announced_nothing :
    (old : List UserInfo) → IsDistinct old → SameDiff (compare_incremental_delta old [] []) no_diff
unfolding last_user
announced_nothing old h = (
  λ k. last_user-announced_deleted old [] [] h k,
  λ k. last_user-announced_added old [] [] k ∙ ground arith,
  λ k. last_user-announced_updated old [] [] h k ∙ ground arith,
)

is_empty-eq_nil : (us : List UserInfo) → is_empty us ≡ true → us ≡ []
is_empty-eq_nil [] h = refl
is_empty-eq_nil (u ∷ us) h = cc

module _ (state : UserSyncState) (delta : UserDeltaBody) where
  abbrev announced : UserListDiff
  announced = user_delta_body_diff state delta

  abbrev performed : UserListDiff
  performed = (apply_user_delta_body state delta).diff

  diff_of_full : delta.full ≡ true → announced ≡ performed
  unfolding apply_user_delta_body user_delta_body_diff
  diff_of_full f = ground arith

  diff_of_nothing :
      delta.full ≡ false
      → delta.deleted ≡ []
      → delta.upsert ≡ []
      → (announced ≡ compare_incremental_delta state.users [] []) × (performed ≡ no_diff)
  unfolding apply_user_delta_body user_delta_body_diff
  diff_of_nothing f d u = ground arith

  diff_of_change :
      delta.full ≡ false
      → (is_empty delta.deleted && is_empty delta.upsert) ≡ false
      → let applied = apply_user_delta state.users delta.deleted delta.upsert in
        (announced ≡ compare_incremental_delta state.users delta.deleted delta.upsert)
        × (performed ≡ record {
          deleted = applied.deleted_applied;
          added = applied.added;
          updated = applied.updated;
        })
  unfolding apply_user_delta_body user_delta_body_diff
  diff_of_change f e = ground arith

  -- If the cached list and the delta's upserts repeat no uuid, what is announced of a delta, full or
  -- not, is under each uuid what the step reports.
  pub user_delta_body_diff-SameDiff :
      IsDistinct state.users → IsDistinct delta.upsert → SameDiff announced performed
  user_delta_body_diff-SameDiff h d = elim (Bool-cases delta.full) [
    | inl f ↦ rw (diff_of_full f) (SameDiff-refl performed)
    | inr f ↦ elim (Bool-cases (is_empty delta.deleted && is_empty delta.upsert)) [
      | inl e ↦
          let (p, q) =
            diff_of_nothing f (is_empty-eq_nil delta.deleted (ground arith))
              (is_empty-eq_nil delta.upsert (ground arith)) in
          rw (p, q) (announced_nothing state.users h)
      | inr e ↦
          let (p, q) = diff_of_change f e in
          rw (p, q)
            (compare_incremental_delta-apply_user_delta state.users delta.deleted delta.upsert h d)
    ]
  ]
