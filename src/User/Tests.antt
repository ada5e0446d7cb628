-- ===== src/User/Tests.antt =====
-- The routines of src/user.rs at small inputs, those of the repository's own tests among them, and
-- the theorems at inputs that meet their hypotheses.
use kelinode_rs.Prelude.{String, false, ℕ, none, List, [], ◌∷◌, map, if◌then◌else◌, ◌≡◌, refl}
use kelinode_rs.Prelude.Text.{text, text_eq}
use kelinode_rs.Prelude.Int.{pos}
use kelinode_rs.Prelude.Order.{text_cmp}
use kelinode_rs.BTreeMap.{get, insert, remove, collect}
use kelinode_rs.User.{
  UserInfo, UserDeltaBody, UserSyncState, user_changed, user_delta_entries_by_uuid, delete_user,
  delete_users, upsert_user, upsert_users, apply_user_delta, compare_incremental_delta,
  apply_user_delta_body, user_delta_body_diff,
}
use kelinode_rs.User.Lookup.{or_else, last_user, has_uuid, IsDistinct}
use kelinode_rs.User.Applied.{IsRising, last_user-apply_user_delta}
use kelinode_rs.User.Agree.{
  SameUsers, compare_incremental_delta-apply_user_delta, replay, replay_exact,
}
use kelinode_rs.User.Sync.{
  Stepped, SameDiff, apply_user_delta_body-Stepped, user_delta_body_diff-SameDiff,
}

abbrev person : ℕ → String → ℕ → ℕ → UserInfo
person i u s d = record { id = i; uuid = text u; speed_limit = s; device_limit = d }

abbrev old : List UserInfo
old = person 2 "b" 0 1 ∷ person 1 "a" 0 1 ∷ person 3 "c" 0 1 ∷ []

abbrev gone : List UserInfo
gone = person 3 "c" 0 1 ∷ person 99 "z" 0 1 ∷ []

abbrev more : List UserInfo
more = person 4 "d" 0 2 ∷ person 1 "a" 10 1 ∷ []

-- `apply_user_delta_keeps_legacy_uuid_sorted_next_order`
legacy_order :
    map (λ u. u.uuid) (apply_user_delta old gone more).next ≡ text "a" ∷ text "b" ∷ text "d" ∷ []
unfolding apply_user_delta delete_users delete_user upsert_users upsert_user
    user_delta_entries_by_uuid collect get insert remove text_cmp
legacy_order = refl

legacy_reports :
    let r = apply_user_delta old gone more in
    (map (λ u. u.uuid) r.deleted_applied ≡ text "c" ∷ [])
    × (map (λ u. u.uuid) r.added ≡ text "d" ∷ [])
    × (map (λ u. u.uuid) r.updated ≡ text "a" ∷ [])
unfolding apply_user_delta delete_users delete_user upsert_users upsert_user
    user_delta_entries_by_uuid collect get insert remove text_cmp user_changed
legacy_reports = (refl, refl, refl)

last_user-apply_user_delta_example :
    last_user (text "a") (apply_user_delta old gone more).next
    ≡ or_else
        (last_user (text "a") more)
        (if has_uuid (text "a") gone then none else last_user (text "a") old)
last_user-apply_user_delta_example = last_user-apply_user_delta old gone more (text "a")

old-IsDistinct : IsDistinct old
unfolding text_eq
old-IsDistinct = (refl, (refl, (refl, tt)))

more-IsDistinct : IsDistinct more
unfolding text_eq
more-IsDistinct = (refl, (refl, tt))

compare_incremental_delta-apply_user_delta_example :
    let applied = apply_user_delta old gone more in
    let announced = compare_incremental_delta old gone more in
    SameUsers announced.deleted applied.deleted_applied
    × SameUsers announced.added applied.added
    × SameUsers announced.updated applied.updated
compare_incremental_delta-apply_user_delta_example =
    compare_incremental_delta-apply_user_delta old gone more old-IsDistinct more-IsDistinct

abbrev rising : List UserInfo
rising = person 1 "a" 10 1 ∷ person 4 "d" 0 2 ∷ []

rising-IsRising : IsRising rising
unfolding text_cmp
rising-IsRising = (refl, tt)

replay_exact_example : replay old rising ≡ rising
replay_exact_example = replay_exact old rising rising-IsRising

abbrev cached : UserSyncState
cached = record { revision = pos 7; users = old; updated_at = none }

abbrev change : UserDeltaBody
change = record { full = false; revision = pos 8; users = []; deleted = gone; upsert = more }

apply_user_delta_body-Stepped_example :
    Stepped cached change (apply_user_delta_body cached change).state
apply_user_delta_body-Stepped_example = apply_user_delta_body-Stepped cached change

user_delta_body_diff-SameDiff_example :
    SameDiff (user_delta_body_diff cached change) (apply_user_delta_body cached change).diff
user_delta_body_diff-SameDiff_example =
    user_delta_body_diff-SameDiff cached change old-IsDistinct more-IsDistinct
