-- ===== src/User/Incremental.antt =====
-- `compare_incremental_delta` of src/user.rs: the difference that a delta announces, found from the
-- old list without building the new one.
use kelinode_rs.Prelude.{
  false, not, ◌||◌, ◌&&◌, Option, none, some, List, [], ◌∷◌, ◌++◌, map, if◌then◌else◌, ◌≡◌, refl,
  ap, ◌∙◌, append-nil, append_assoc, arith, inl, inr, Bool-cases,
}
use kelinode_rs.Prelude.Text.{Text, text_eq, text_eq_iff}
use kelinode_rs.Prelude.Order.{text_ord}
use kelinode_rs.BTreeMap.{remove, values, contains_key, is_some}
use kelinode_rs.User.{
  UserInfo, UserListDiff, no_diff, Compared, user_refs_by_uuid, user_changed, deleted_uuids,
  compare_old_user, compare_old_users, compare_incremental_delta,
}
use kelinode_rs.User.Lookup.{last_user, has_uuid, IsDistinct, cmp-text_eq}
use kelinode_rs.User.Loops.{
  opt_list, is_change, user_at, IsMap, remove-IsMap, user_at-remove, run, run-IsMap, picked, IsLoop,
  Owns, last_user-picked, last_user-Owns,
}
use kelinode_rs.User.Diff.{Refs, itself, refs-IsMap, user_at-refs, last_user-values-itself}
use kelinode_rs.BTreeMap.Extension.{get-collect, last_of}

last_of-uuids :
    (k : Text) (us : List UserInfo) (found : Option (Unit {0}))
    → is_some (last_of k (map (λ u. (u.uuid, tt)) us) found) ≡ (has_uuid k us || is_some found)
last_of-uuids k [] found = refl
last_of-uuids k (u ∷ us) found =
    last_of-uuids k us _ ∙ ground (arith, cmp-text_eq k u.uuid (some tt) found)

-- The set of deleted uuids.
contains-deleted_uuids :
    (k : Text) (ds : List UserInfo) → contains_key k (deleted_uuids ds) ≡ has_uuid k ds
contains-deleted_uuids k ds =
    ap is_some (get-collect k (map (λ u. (u.uuid, tt)) ds)) ∙ last_of-uuids k ds none ∙ ground arith

module _ (deleted : List UserInfo) where
  -- Of the map of upserted users, an old user that is not deleted takes the one of its uuid.
  abbrev pub passing : Refs → UserInfo → Refs
  passing m u = if has_uuid u.uuid deleted then m else remove u.uuid m

  abbrev pub replaced : Option UserInfo → Option UserInfo → Option UserInfo
  replaced o none = none
  replaced o (some u) = if has_uuid u.uuid deleted then none else is_change (some u) o

  abbrev pub dropped : Option UserInfo → Option UserInfo → Option UserInfo
  dropped o none = none
  dropped o (some u) = if has_uuid u.uuid deleted then some u else none

  compare_old_user-closed :
      (m : Refs) (d : UserListDiff) (u : UserInfo)
      → compare_old_user deleted (m, d) u ≡ (
        passing m u,
        record d {
          deleted = d.deleted ++ opt_list (dropped (user_at itself u.uuid m) (some u));
          updated = d.updated ++ opt_list (replaced (user_at itself u.uuid m) (some u));
        },
      )
  unfolding compare_old_user
  compare_old_user-closed m d u =
      ground
        (arith, contains-deleted_uuids u.uuid deleted, append-nil d.deleted, append-nil d.updated)

  compare_old_users-closed :
      (m : Refs) (d : UserListDiff) (us : List UserInfo)
      → compare_old_users deleted (m, d) us ≡ (
        run itself passing dropped m us,
        record d {
          deleted = d.deleted ++ picked itself passing dropped m us;
          updated = d.updated ++ picked itself passing replaced m us;
        },
      )
  unfolding compare_old_users run picked
  compare_old_users-closed m d [] = ground (arith, append-nil d.deleted, append-nil d.updated)
  compare_old_users-closed m d (u ∷ us) =
      let gone = opt_list (dropped (user_at itself u.uuid m) (some u)) in
      let change = opt_list (replaced (user_at itself u.uuid m) (some u)) in
      let m' = passing m u in
      let d' : UserListDiff = record d {
        deleted = d.deleted ++ gone;
        updated = d.updated ++ change;
      } in
      ap (λ st. compare_old_users deleted st us) (compare_old_user-closed m d u)
      ∙ compare_old_users-closed m' d' us
      ∙ cc (
        append_assoc d.deleted gone (picked itself passing dropped m' us),
        append_assoc d.updated change (picked itself passing replaced m' us),
      )

  passing-IsMap : (m : Refs) (u : UserInfo) → IsMap itself m → IsMap itself (passing m u)
  passing-IsMap m u h = elim (Bool-cases (has_uuid u.uuid deleted)) [
    | inl e ↦ rw e h
    | inr e ↦ rw e (remove-IsMap itself u.uuid m h)
  ]

  user_at-passing :
      (k : Text) (m : Refs) (u : UserInfo)
      → IsMap itself m
      → user_at itself k (passing m u)
        ≡ (if text_eq k u.uuid && not (has_uuid u.uuid deleted) then none else user_at itself k m)
  user_at-passing k m u h = ground (arith, user_at-remove itself k u.uuid m h)

  passing_apart :
      (k : Text) (m : Refs) (u : UserInfo)
      → IsMap itself m
      → text_eq k u.uuid ≡ false
      → user_at itself k (passing m u) ≡ user_at itself k m
  passing_apart k m u h e = user_at-passing k m u h ∙ rw e refl

  dropped-Owns :
      (o : Option UserInfo) (u : UserInfo) → Owns u.uuid o → Owns u.uuid (dropped o (some u))
  dropped-Owns o u h = elim (Bool-cases (has_uuid u.uuid deleted)) [
    | inl e ↦ rw e refl
    | inr e ↦ rw e tt
  ]

  replaced-Owns :
      (o : Option UserInfo) (u : UserInfo) → Owns u.uuid o → Owns u.uuid (replaced o (some u))
  replaced-Owns none u h = elim (Bool-cases (has_uuid u.uuid deleted)) [
    | inl e ↦ rw e tt
    | inr e ↦ rw e tt
  ]
  replaced-Owns (some v) u h = elim (Bool-cases (has_uuid u.uuid deleted)) [
    | inl e ↦ rw e tt
    | inr e ↦ elim (Bool-cases (user_changed u v)) [ inl c ↦ rw (e, c) h | inr c ↦ rw (e, c) tt ]
  ]

  drops : IsLoop itself passing dropped
  drops = record {
    step_map = passing-IsMap;
    step_apart = passing_apart;
    pick_owns = dropped-Owns;
    pick_none = λ o. refl;
  }

  replacements : IsLoop itself passing replaced
  replacements = record {
    step_map = passing-IsMap;
    step_apart = passing_apart;
    pick_owns = replaced-Owns;
    pick_none = λ o. refl;
  }

  user_at-passed :
      (k : Text) (m : Refs) (us : List UserInfo)
      → IsMap itself m
      → user_at itself k (run itself passing dropped m us)
        ≡ (if has_uuid k us && not (has_uuid k deleted) then none else user_at itself k m)
  unfolding run
  user_at-passed k m [] h = refl
  user_at-passed k m (u ∷ us) h =
      user_at-passed k (passing m u) us (passing-IsMap m u h)
      ∙ elim (Bool-cases (text_eq k u.uuid)) [
        | inl same ↦
            let e : has_uuid k deleted ≡ has_uuid u.uuid deleted =
              cc ((text_eq_iff k u.uuid).0 same) in
            ground (arith, user_at-passing k m u h)
        | inr other ↦ ground (arith, user_at-passing k m u h)
      ]

module _ (old deleted upsert : List UserInfo) where
  compare_incremental_delta-closed :
      let m = user_refs_by_uuid upsert in
      compare_incremental_delta old deleted upsert ≡ record {
        deleted = picked itself (passing deleted) (dropped deleted) m old;
        added = values (run itself (passing deleted) (dropped deleted) m old);
        updated = picked itself (passing deleted) (replaced deleted) m old;
      }
  unfolding compare_incremental_delta
  compare_incremental_delta-closed =
      ap finish (compare_old_users-closed deleted (user_refs_by_uuid upsert) no_diff old)
    where
      finish : Compared → UserListDiff
      finish st = record st.1 { added = values st.0 }

  -- The upserted users whose uuids no remaining old user has.
  pub last_user-announced_added :
      (k : Text)
      → last_user k (compare_incremental_delta old deleted upsert).added
        ≡ (if has_uuid k old && not (has_uuid k deleted) then none else last_user k upsert)
  last_user-announced_added k =
      let m = user_refs_by_uuid upsert in
      let h = refs-IsMap upsert in
      ap (λ d. last_user k d.added) compare_incremental_delta-closed
      ∙ last_user-values-itself k _
          (run-IsMap itself (passing deleted) (dropped deleted) (drops deleted) m old h)
      ∙ user_at-passed deleted k m old h
      ∙ ap (λ o. if has_uuid k old && not (has_uuid k deleted) then none else o)
          (user_at-refs k upsert)

  module _ (distinct : IsDistinct old) where
    pub last_user-announced_deleted :
        (k : Text)
        → last_user k (compare_incremental_delta old deleted upsert).deleted
          ≡ (if has_uuid k deleted then last_user k old else none)
    last_user-announced_deleted k =
        ap (λ d. last_user k d.deleted) compare_incremental_delta-closed
        ∙ last_user-picked itself (passing deleted) (dropped deleted) (drops deleted) k _ old
            (refs-IsMap upsert) distinct
        ∙ dropped_uuid (last_user k old) (last_user-Owns k old)
      where
        dropped_uuid :
            (o : Option UserInfo)
            → Owns k o
            → dropped deleted (user_at itself k (user_refs_by_uuid upsert)) o
              ≡ (if has_uuid k deleted then o else none)
        dropped_uuid none h = ground arith
        dropped_uuid (some u) h = rw h

    pub last_user-announced_updated :
        (k : Text)
        → last_user k (compare_incremental_delta old deleted upsert).updated
          ≡ (if has_uuid k deleted then none else is_change (last_user k old) (last_user k upsert))
    last_user-announced_updated k =
        ap (λ d. last_user k d.updated) compare_incremental_delta-closed
        ∙ last_user-picked itself (passing deleted) (replaced deleted) (replacements deleted) k _
            old (refs-IsMap upsert) distinct
        ∙ ap (λ o. replaced deleted o (last_user k old)) (user_at-refs k upsert)
        ∙ replaced_uuid (last_user k old) (last_user-Owns k old)
      where
        replaced_uuid :
            (o : Option UserInfo)
            → Owns k o
            → replaced deleted (last_user k upsert) o
              ≡ (if has_uuid k deleted then none else is_change o (last_user k upsert))
        replaced_uuid none h = ground arith
        replaced_uuid (some u) h = rw h
