-- ===== src/User/Agree.antt =====
-- How the routines of src/user.rs agree: the two ways to find what a delta changes, and the
-- difference of two lists replayed as a delta.
use kelinode_rs.Prelude.{
  false, Option, none, some, List, [], ◌∷◌, ◌++◌, map, if◌then◌else◌, ◌≡◌, refl, sym, ap, ◌∙◌,
  arith, Bool-cases, inl, inr,
}
use kelinode_rs.Prelude.Text.{Text}
use kelinode_rs.Prelude.Order.{text_ord}
use kelinode_rs.BTreeMap.{get, is_some, values}
use kelinode_rs.BTreeMap.Laws.{IsSorted, Above, get-Above}
use kelinode_rs.BTreeMap.Extension.{map_ext}
use kelinode_rs.User.{
  UserInfo, by_uuid, apply_user_delta, compare_user_list, compare_incremental_delta, user_changed,
}
use kelinode_rs.User.Lookup.{
  or_else, last_user, has_uuid, IsDistinct, is_some-last_user, last_user-append, IsKeyed,
  user_of_id,
}
use kelinode_rs.User.Loops.{is_new, is_change, last_user-Owns, Owns}
use kelinode_rs.User.Applied.{
  IsRising, apply_user_delta-IsRising, last_user-apply_user_delta, last_user-deleted_applied,
  last_user-added, last_user-updated,
}
use kelinode_rs.User.Diff.{
  itself, last_user-values-itself, last_user-compared_deleted, last_user-compared_added,
  last_user-compared_updated,
}
use kelinode_rs.User.Incremental.{
  last_user-announced_added, last_user-announced_deleted, last_user-announced_updated,
}

-- The same users are reported, whatever the order: under each uuid the same last user.
abbrev pub SameUsers : List UserInfo → List UserInfo → Type 0
SameUsers us vs = (k : Text) → last_user k us ≡ last_user k vs

module _ (old deleted upsert : List UserInfo) (h : IsDistinct old) (d : IsDistinct upsert) where
  -- If the old list and the upserts repeat no uuid, the deletions, additions and updates announced
  -- before a delta are, under each uuid, those that applying it reports.
  pub compare_incremental_delta-apply_user_delta :
      let applied = apply_user_delta old deleted upsert in
      let announced = compare_incremental_delta old deleted upsert in
      SameUsers announced.deleted applied.deleted_applied
      × SameUsers announced.added applied.added
      × SameUsers announced.updated applied.updated
  compare_incremental_delta-apply_user_delta = (
    λ k.
        last_user-announced_deleted old deleted upsert h k
        ∙ sym (last_user-deleted_applied old deleted upsert k),
    λ k.
        last_user-announced_added old deleted upsert k
        ∙ ground (arith, is_some-last_user k old)
        ∙ sym (last_user-added old deleted upsert d k),
    λ k.
        last_user-announced_updated old deleted upsert h k
        ∙ ground arith
        ∙ sym (last_user-updated old deleted upsert d k),
  )

-- `user_changed` reads every field but the uuid.
unchanged : (u v : UserInfo) → u.uuid ≡ v.uuid → user_changed u v ≡ false → u ≡ v
unfolding user_changed
unchanged u v e h = ground arith

replayed :
    (k : Text) (o n : Option UserInfo)
    → Owns k o
    → Owns k n
    → or_else
        (or_else (is_change o n) (is_new o n))
        (if is_some (if is_some n then none else o) then none else o)
      ≡ n
replayed k none none h g = refl
replayed k none (some v) h g = refl
replayed k (some u) none h g = refl
replayed k (some u) (some v) h g = elim (Bool-cases (user_changed u v)) [
  | inl e ↦ rw e refl
  | inr e ↦ rw e (ap some (unchanged u v (h ∙ sym g) e))
]

-- A list in the order of its uuids is determined by its users.
by_uuid-IsSorted : (us : List UserInfo) → IsRising us → IsSorted (map by_uuid us)
by_uuid-IsSorted [] r = tt
by_uuid-IsSorted (u ∷ []) r = (tt, tt)
by_uuid-IsSorted (u ∷ v ∷ us) (lt, r) = (lt, by_uuid-IsSorted (v ∷ us) r)

by_uuid-IsKeyed : (us : List UserInfo) → IsKeyed itself (map by_uuid us)
by_uuid-IsKeyed [] = tt
by_uuid-IsKeyed (u ∷ us) = (refl, by_uuid-IsKeyed us)

values-by_uuid : (us : List UserInfo) → values (map by_uuid us) ≡ us
values-by_uuid [] = refl
values-by_uuid (u ∷ us) = ap (λ vs. u ∷ vs) (values-by_uuid us)

get-by_uuid :
    (k : Text) (us : List UserInfo) → IsRising us → get k (map by_uuid us) ≡ last_user k us
get-by_uuid k us r =
    sym (user_of_id _)
    ∙ sym (
        last_user-values-itself k (map by_uuid us)
          (record { sorted = by_uuid-IsSorted us r; keyed = by_uuid-IsKeyed us }))
    ∙ ap (last_user k) (values-by_uuid us)

rising_ext : (us vs : List UserInfo) → IsRising us → IsRising vs → SameUsers us vs → us ≡ vs
rising_ext us vs r q h =
    sym (values-by_uuid us)
    ∙ ap values (
        map_ext (map by_uuid us) (map by_uuid vs) (by_uuid-IsSorted us r) (by_uuid-IsSorted vs q)
          (λ k. get-by_uuid k us r ∙ h k ∙ sym (get-by_uuid k vs q)))
    ∙ values-by_uuid vs

rising-lt :
    (k : Text) (us : List UserInfo) → Above k (map by_uuid us) → IsRising us → has_uuid k us ≡ false
rising-lt k us a r =
    sym (is_some-last_user k us)
    ∙ ap is_some (sym (get-by_uuid k us r) ∙ get-Above k (map by_uuid us) a)

rising-IsDistinct : (us : List UserInfo) → IsRising us → IsDistinct us
rising-IsDistinct [] r = tt
rising-IsDistinct (u ∷ []) r = (refl, tt)
rising-IsDistinct (u ∷ v ∷ us) (lt, r) =
    (rising-lt u.uuid (v ∷ us) lt r, rising-IsDistinct (v ∷ us) r)

-- The difference of two lists, applied to the old one.
abbrev pub replay : List UserInfo → List UserInfo → List UserInfo
replay old new =
    let diff = compare_user_list old new in
    (apply_user_delta old diff.deleted (diff.added ++ diff.updated)).next

-- If the new list repeats no uuid, the old list with the difference of the two lists applied has,
-- under each uuid, the user of the new list.
pub replay-SameUsers : (old new : List UserInfo) → IsDistinct new → SameUsers (replay old new) new
replay-SameUsers old new d k =
    let diff = compare_user_list old new in
    last_user-apply_user_delta old diff.deleted (diff.added ++ diff.updated) k
    ∙ ground (
      arith,
      last_user-append k diff.added diff.updated,
      last_user-compared_added old new d k,
      last_user-compared_updated old new d k,
      is_some-last_user k diff.deleted,
      last_user-compared_deleted old new k,
      is_some-last_user k new,
      replayed k (last_user k old) (last_user k new) (last_user-Owns k old) (last_user-Owns k new),
    )

-- If the uuids of the new list rise strictly, the old list with the difference of the two lists
-- applied is the new list.
pub replay_exact : (old new : List UserInfo) → IsRising new → replay old new ≡ new
replay_exact old new r =
    let diff = compare_user_list old new in
    rising_ext (replay old new) new
      (apply_user_delta-IsRising old diff.deleted (diff.added ++ diff.updated)) r
      (replay-SameUsers old new (rising-IsDistinct new r))
