-- ===== src/User/Delta.antt =====
-- `apply_user_delta` of src/user.rs: its two loops in closed form, without the accumulated result.
use kelinode_rs.Prelude.{
  false, Option, none, some, List, [], ◌∷◌, ◌++◌, map, if◌then◌else◌, ◌≡◌, refl, ap, ◌∙◌,
  append-nil, append_assoc, arith,
}
use kelinode_rs.Prelude.Text.{Text, text_eq, text_eq_iff}
use kelinode_rs.Prelude.Order.{text_ord}
use kelinode_rs.BTreeMap.{BTreeMap, insert, remove, values}
use kelinode_rs.BTreeMap.Laws.{insert-IsSorted}
use kelinode_rs.User.Lookup.{
  or_else, last_user, last_user-append, has_uuid, insert-IsKeyed, get-insert_uuid,
}
use kelinode_rs.User.Loops.{
  opt_list, is_new, is_change, last_user-opt_list, user_at, user_at-Owns, IsMap, remove-IsMap,
  user_at-remove, run, picked, IsLoop, is_new-Owns, is_change-Owns, is_new-none, is_change-none,
}
use kelinode_rs.User.{
  UserInfo, UserDeltaEntry, user, upserted, UserDeltaApplyResult, no_result, Deltas, delete_user,
  delete_users, upsert_user, upsert_users, apply_user_delta, user_delta_entries_by_uuid,
}

abbrev pub Entries : Type 0
Entries = BTreeMap Text UserDeltaEntry

abbrev pub dropping : Entries → UserInfo → Entries
dropping m u = remove u.uuid m

abbrev pub putting : Entries → UserInfo → Entries
putting m u = insert u.uuid (upserted u) m

abbrev pub is_hit : Option UserInfo → Option UserInfo → Option UserInfo
is_hit o none = none
is_hit o (some _) = o

abbrev pub hits : Entries → List UserInfo → List UserInfo
hits m ds = picked user dropping is_hit m ds

delete_user-closed :
    (m : Entries) (r : UserDeltaApplyResult) (u : UserInfo)
    → delete_user (m, r) u ≡ (
      dropping m u,
      record r { deleted_applied = r.deleted_applied ++ opt_list (user_at user u.uuid m) },
    )
unfolding delete_user
delete_user-closed m r u = ground (arith, append-nil r.deleted_applied)

delete_users-closed :
    (m : Entries) (r : UserDeltaApplyResult) (ds : List UserInfo)
    → delete_users (m, r) ds ≡ (
      run user dropping is_hit m ds,
      record r { deleted_applied = r.deleted_applied ++ hits m ds },
    )
unfolding delete_users run picked
delete_users-closed m r [] = ground (arith, append-nil r.deleted_applied)
delete_users-closed m r (u ∷ us) =
    let now = opt_list (user_at user u.uuid m) in
    let m' = dropping m u in
    ap (λ st. delete_users st us) (delete_user-closed m r u)
    ∙ delete_users-closed m' (record r { deleted_applied = r.deleted_applied ++ now }) us
    ∙ ap (λ l. (run user dropping is_hit m' us, record r { deleted_applied = l }))
        (append_assoc r.deleted_applied now (hits m' us))

pub dropping-IsMap :
    (m : Entries) (ds : List UserInfo) → IsMap user m → IsMap user (run user dropping is_hit m ds)
unfolding run
dropping-IsMap m [] h = h
dropping-IsMap m (u ∷ us) h = dropping-IsMap (dropping m u) us (remove-IsMap user u.uuid m h)

pub user_at-dropping :
    (k : Text) (m : Entries) (ds : List UserInfo)
    → IsMap user m
    → user_at user k (run user dropping is_hit m ds)
      ≡ (if has_uuid k ds then none else user_at user k m)
unfolding run
user_at-dropping k m [] h = refl
user_at-dropping k m (u ∷ us) h =
    user_at-dropping k (dropping m u) us (remove-IsMap user u.uuid m h)
    ∙ ground (arith, user_at-remove user k u.uuid m h)

-- The first loop reports the map's users of the deleted uuids, repeated or not.
pub last_user-hits :
    (k : Text) (m : Entries) (ds : List UserInfo)
    → IsMap user m
    → last_user k (hits m ds) ≡ (if has_uuid k ds then user_at user k m else none)
unfolding picked
last_user-hits k m [] h = unfold last_user in refl
last_user-hits k m (u ∷ us) h =
    let now = opt_list (user_at user u.uuid m) in
    last_user-append k now (hits (dropping m u) us)
    ∙ ap (λ x. or_else x (last_user k now))
        (last_user-hits k (dropping m u) us (remove-IsMap user u.uuid m h))
    ∙ ground (
      arith,
      last_user-opt_list k u.uuid (user_at user u.uuid m) (user_at-Owns user u.uuid m h),
      user_at-remove user k u.uuid m h,
      text_eq_iff k u.uuid,
    )

upsert_user-closed :
    (m : Entries) (r : UserDeltaApplyResult) (u : UserInfo)
    → upsert_user (m, r) u ≡ (
      putting m u,
      record r {
        added = r.added ++ opt_list (is_new (user_at user u.uuid m) (some u));
        updated = r.updated ++ opt_list (is_change (user_at user u.uuid m) (some u));
      },
    )
unfolding upsert_user
upsert_user-closed m r u = ground (arith, append-nil r.added, append-nil r.updated)

upsert_users-closed :
    (m : Entries) (r : UserDeltaApplyResult) (us : List UserInfo)
    → upsert_users (m, r) us ≡ (
      run user putting is_new m us,
      record r {
        added = r.added ++ picked user putting is_new m us;
        updated = r.updated ++ picked user putting is_change m us;
      },
    )
unfolding upsert_users run picked
upsert_users-closed m r [] = ground (arith, append-nil r.added, append-nil r.updated)
upsert_users-closed m r (u ∷ us) =
    let new = opt_list (is_new (user_at user u.uuid m) (some u)) in
    let change = opt_list (is_change (user_at user u.uuid m) (some u)) in
    let m' = putting m u in
    let r' : UserDeltaApplyResult = record r {
      added = r.added ++ new;
      updated = r.updated ++ change;
    } in
    ap (λ st. upsert_users st us) (upsert_user-closed m r u)
    ∙ upsert_users-closed m' r' us
    ∙ cc (
      append_assoc r.added new (picked user putting is_new m' us),
      append_assoc r.updated change (picked user putting is_change m' us),
    )

putting-IsMap : (m : Entries) (u : UserInfo) → IsMap user m → IsMap user (putting m u)
putting-IsMap m u h = record {
  sorted = insert-IsSorted u.uuid (upserted u) m h.sorted;
  keyed = insert-IsKeyed user u.uuid (upserted u) m refl h.keyed;
}

user_at-putting :
    (k : Text) (m : Entries) (u : UserInfo)
    → user_at user k (putting m u) ≡ (if text_eq k u.uuid then some u else user_at user k m)
user_at-putting k m u = ground (arith, get-insert_uuid k u.uuid (upserted u) m)

putting_apart :
    (k : Text) (m : Entries) (u : UserInfo)
    → IsMap user m
    → text_eq k u.uuid ≡ false
    → user_at user k (putting m u) ≡ user_at user k m
putting_apart k m u h e = user_at-putting k m u ∙ rw e refl

pub news : IsLoop user putting is_new
news = record {
  step_map = putting-IsMap;
  step_apart = putting_apart;
  pick_owns = λ o u _. is_new-Owns o u;
  pick_none = is_new-none;
}

pub changes : IsLoop user putting is_change
changes = record {
  step_map = putting-IsMap;
  step_apart = putting_apart;
  pick_owns = λ o u _. is_change-Owns o u;
  pick_none = is_change-none;
}

pub user_at-run-putting :
    (k : Text) (m : Entries) (us : List UserInfo)
    → user_at user k (run user putting is_new m us) ≡ or_else (last_user k us) (user_at user k m)
unfolding run last_user
user_at-run-putting k m [] = refl
user_at-run-putting k m (u ∷ us) =
    user_at-run-putting k (putting m u) us ∙ ground (arith, user_at-putting k m u)

-- The whole function in closed form.
pub apply_user_delta-closed :
    (old deleted upsert : List UserInfo)
    → let m = user_delta_entries_by_uuid old in
      let m' = run user dropping is_hit m deleted in
      apply_user_delta old deleted upsert ≡ record {
        next = map user (values (run user putting is_new m' upsert));
        deleted_applied = hits m deleted;
        added = picked user putting is_new m' upsert;
        updated = picked user putting is_change m' upsert;
      }
unfolding apply_user_delta
apply_user_delta-closed old deleted upsert =
    let m = user_delta_entries_by_uuid old in
    ap finish (
      ap (λ st. upsert_users st upsert) (delete_users-closed m no_result deleted)
      ∙ upsert_users-closed (run user dropping is_hit m deleted)
          (record no_result { deleted_applied = hits m deleted }) upsert)
  where
    finish : Deltas → UserDeltaApplyResult
    finish st = record st.1 { next = map user (values st.0) }
