-- ===== src/User/Diff.antt =====
-- `compare_user_list` of src/user.rs: the difference between two whole lists, and that it suffices
-- to turn the one into the other.
use kelinode_rs.Prelude.{
  false, none, some, List, [], ◌∷◌, ◌++◌, map, if◌then◌else◌, ◌≡◌, refl, sym, ap, ◌∙◌, append-nil,
  append_assoc, arith,
}
use kelinode_rs.Prelude.Text.{Text, text_eq}
use kelinode_rs.Prelude.Order.{text_ord}
use kelinode_rs.BTreeMap.{BTreeMap, remove, values}
use kelinode_rs.User.Lookup.{
  last_user, has_uuid, IsDistinct, last_user-values, user_of_id, get-user_refs_by_uuid,
  user_refs_by_uuid-IsSorted, user_refs_by_uuid-IsKeyed,
}
use kelinode_rs.User.Loops.{
  opt_list, is_new, is_change, user_at, IsMap, remove-IsMap, user_at-remove, run, picked, IsLoop,
  last_user-picked, is_new-Owns, is_change-Owns, is_new-none, is_change-none,
}
use kelinode_rs.User.{
  UserInfo, UserListDiff, no_diff, Compared, user_refs_by_uuid, compare_user, compare_users,
  compare_user_list,
}

abbrev pub Refs : Type 0
Refs = BTreeMap Text UserInfo

abbrev pub itself : UserInfo → UserInfo
itself u = u

abbrev pub taking : Refs → UserInfo → Refs
taking m u = remove u.uuid m

compare_user-closed :
    (m : Refs) (d : UserListDiff) (u : UserInfo)
    → compare_user (m, d) u ≡ (
      taking m u,
      record d {
        added = d.added ++ opt_list (is_new (user_at itself u.uuid m) (some u));
        updated = d.updated ++ opt_list (is_change (user_at itself u.uuid m) (some u));
      },
    )
unfolding compare_user
compare_user-closed m d u = ground (arith, append-nil d.added, append-nil d.updated)

compare_users-closed :
    (m : Refs) (d : UserListDiff) (us : List UserInfo)
    → compare_users (m, d) us ≡ (
      run itself taking is_new m us,
      record d {
        added = d.added ++ picked itself taking is_new m us;
        updated = d.updated ++ picked itself taking is_change m us;
      },
    )
unfolding compare_users run picked
compare_users-closed m d [] = ground (arith, append-nil d.added, append-nil d.updated)
compare_users-closed m d (u ∷ us) =
    let new = opt_list (is_new (user_at itself u.uuid m) (some u)) in
    let change = opt_list (is_change (user_at itself u.uuid m) (some u)) in
    let m' = taking m u in
    let d' : UserListDiff = record d { added = d.added ++ new; updated = d.updated ++ change } in
    ap (λ st. compare_users st us) (compare_user-closed m d u)
    ∙ compare_users-closed m' d' us
    ∙ cc (
      append_assoc d.added new (picked itself taking is_new m' us),
      append_assoc d.updated change (picked itself taking is_change m' us),
    )

pub taking-IsMap : (m : Refs) (u : UserInfo) → IsMap itself m → IsMap itself (taking m u)
taking-IsMap m u h = remove-IsMap itself u.uuid m h

taking_apart :
    (k : Text) (m : Refs) (u : UserInfo)
    → IsMap itself m
    → text_eq k u.uuid ≡ false
    → user_at itself k (taking m u) ≡ user_at itself k m
taking_apart k m u h e = user_at-remove itself k u.uuid m h ∙ rw e refl

news : IsLoop itself taking is_new
news = record {
  step_map = taking-IsMap;
  step_apart = taking_apart;
  pick_owns = λ o u _. is_new-Owns o u;
  pick_none = is_new-none;
}

changes : IsLoop itself taking is_change
changes = record {
  step_map = taking-IsMap;
  step_apart = taking_apart;
  pick_owns = λ o u _. is_change-Owns o u;
  pick_none = is_change-none;
}

taken-IsMap :
    (m : Refs) (us : List UserInfo) → IsMap itself m → IsMap itself (run itself taking is_new m us)
unfolding run
taken-IsMap m [] h = h
taken-IsMap m (u ∷ us) h = taken-IsMap (taking m u) us (taking-IsMap m u h)

user_at-taken :
    (k : Text) (m : Refs) (us : List UserInfo)
    → IsMap itself m
    → user_at itself k (run itself taking is_new m us)
      ≡ (if has_uuid k us then none else user_at itself k m)
unfolding run
user_at-taken k m [] h = refl
user_at-taken k m (u ∷ us) h =
    user_at-taken k (taking m u) us (taking-IsMap m u h)
    ∙ ground (arith, user_at-remove itself k u.uuid m h)

pub refs-IsMap : (us : List UserInfo) → IsMap itself (user_refs_by_uuid us)
refs-IsMap us = record {
  sorted = user_refs_by_uuid-IsSorted us;
  keyed = user_refs_by_uuid-IsKeyed us;
}

pub user_at-refs :
    (k : Text) (us : List UserInfo) → user_at itself k (user_refs_by_uuid us) ≡ last_user k us
user_at-refs k us = user_of_id _ ∙ get-user_refs_by_uuid k us

pub last_user-values-itself :
    (k : Text) (m : Refs) → IsMap itself m → last_user k (values m) ≡ user_at itself k m
last_user-values-itself k m h =
    ap (last_user k) (sym (map_itself (values m))) ∙ last_user-values itself k m h.sorted h.keyed
  where
    map_itself : (us : List UserInfo) → map itself us ≡ us
    map_itself [] = refl
    map_itself (u ∷ us) = ap (λ vs. u ∷ vs) (map_itself us)

compare_user_list-closed :
    (old new : List UserInfo)
    → let m = user_refs_by_uuid old in
      compare_user_list old new ≡ record {
        deleted = values (run itself taking is_new m new);
        added = picked itself taking is_new m new;
        updated = picked itself taking is_change m new;
      }
unfolding compare_user_list
compare_user_list-closed old new =
    ap finish (compare_users-closed (user_refs_by_uuid old) no_diff new)
  where
    finish : Compared → UserListDiff
    finish st = record st.1 { deleted = values st.0 }

module _ (old new : List UserInfo) where
  -- The old users whose uuids the new list lacks.
  pub last_user-compared_deleted :
      (k : Text)
      → last_user k (compare_user_list old new).deleted
        ≡ (if has_uuid k new then none else last_user k old)
  last_user-compared_deleted k =
      let m = user_refs_by_uuid old in
      ap (λ d. last_user k d.deleted) (compare_user_list-closed old new)
      ∙ last_user-values-itself k _ (taken-IsMap m new (refs-IsMap old))
      ∙ user_at-taken k m new (refs-IsMap old)
      ∙ ap (λ o. if has_uuid k new then none else o) (user_at-refs k old)

  module _ (distinct : IsDistinct new) where
    pub last_user-compared_added :
        (k : Text)
        → last_user k (compare_user_list old new).added ≡ is_new (last_user k old) (last_user k new)
    last_user-compared_added k =
        ap (λ d. last_user k d.added) (compare_user_list-closed old new)
        ∙ last_user-picked itself taking is_new news k _ new (refs-IsMap old) distinct
        ∙ ap (λ o. is_new o (last_user k new)) (user_at-refs k old)

    pub last_user-compared_updated :
        (k : Text)
        → last_user k (compare_user_list old new).updated
          ≡ is_change (last_user k old) (last_user k new)
    last_user-compared_updated k =
        ap (λ d. last_user k d.updated) (compare_user_list-closed old new)
        ∙ last_user-picked itself taking is_change changes k _ new (refs-IsMap old) distinct
        ∙ ap (λ o. is_change o (last_user k new)) (user_at-refs k old)
