-- ===== src/User/Applied.antt =====
-- What `apply_user_delta` of src/user.rs promises, read uuid by uuid.
use kelinode_rs.Prelude.{
  Option, none, List, [], ◌∷◌, map, if◌then◌else◌, ◌≡◌, sym, ap, ◌∙◌, Ordering,
}
use mathlib.Core.Path.{subst}
use kelinode_rs.Prelude.Text.{Text}
use kelinode_rs.Prelude.Order.{text_ord, text_cmp}
use kelinode_rs.BTreeMap.{BTreeMap, values}
use kelinode_rs.BTreeMap.Laws.{IsSorted}
use kelinode_rs.User.Lookup.{
  or_else, last_user, has_uuid, IsDistinct, IsKeyed, last_user-values,
  get-user_delta_entries_by_uuid, user_delta_entries_by_uuid-IsSorted,
  user_delta_entries_by_uuid-IsKeyed,
}
use kelinode_rs.User.Loops.{is_new, is_change, user_at, IsMap, run, run-IsMap, last_user-picked}
use kelinode_rs.User.Delta.{
  Entries, dropping, putting, is_hit, news, changes, dropping-IsMap, user_at-dropping,
  last_user-hits, user_at-run-putting, apply_user_delta-closed,
}
use kelinode_rs.User.{UserInfo, user, apply_user_delta, user_delta_entries_by_uuid}

-- The uuids of a list rise strictly, byte by byte.
abbrev pub IsRising : List UserInfo → Type 0
IsRising [] = Unit {0}
IsRising (u ∷ []) = Unit {0}
IsRising (u ∷ v ∷ us) = (text_cmp u.uuid v.uuid ≡ Ordering.lt) × IsRising (v ∷ us)

IsRising-values :
    {V : Type 0} (f : V → UserInfo) (m : BTreeMap Text V)
    → IsSorted m
    → IsKeyed f m
    → IsRising (map f (values m))
IsRising-values f [] s h = tt
IsRising-values f ((k, v) ∷ []) s h = tt
IsRising-values f ((k, v) ∷ (j, w) ∷ m) (a, s) (d, (e, h)) =
    (rw (d, e) a, IsRising-values f ((j, w) ∷ m) s (e, h))

module _ (old deleted upsert : List UserInfo) where
  start : Entries
  start = user_delta_entries_by_uuid old

  start-IsMap : IsMap user start
  unfolding start
  start-IsMap = record {
    sorted = user_delta_entries_by_uuid-IsSorted old;
    keyed = user_delta_entries_by_uuid-IsKeyed old;
  }

  kept : Entries
  kept = run user dropping is_hit start deleted

  kept-IsMap : IsMap user kept
  unfolding kept
  kept-IsMap = dropping-IsMap start deleted start-IsMap

  -- What is left of the old users when the deletions are done.
  abbrev pub remaining : Text → Option UserInfo
  remaining k = if has_uuid k deleted then none else last_user k old

  user_at-kept : (k : Text) → user_at user k kept ≡ remaining k
  unfolding kept start
  user_at-kept k =
      user_at-dropping k start deleted start-IsMap
      ∙ ap (λ o. if has_uuid k deleted then none else o) (get-user_delta_entries_by_uuid k old)

  final-IsMap : IsMap user (run user putting is_new kept upsert)
  final-IsMap = run-IsMap user putting is_new news kept upsert kept-IsMap

  -- For every uuid, the last user of the new list with that uuid is the last upserted one, else the
  -- last old one unless the uuid is deleted.
  pub last_user-apply_user_delta :
      (k : Text)
      → last_user k (apply_user_delta old deleted upsert).next
        ≡ or_else (last_user k upsert) (remaining k)
  unfolding kept start
  last_user-apply_user_delta k =
      ap (λ r. last_user k r.next) (apply_user_delta-closed old deleted upsert)
      ∙ last_user-values user k _ final-IsMap.sorted final-IsMap.keyed
      ∙ user_at-run-putting k kept upsert
      ∙ ap (or_else (last_user k upsert)) (user_at-kept k)

  -- The uuids of the new list rise strictly, whatever the three lists given are.
  pub apply_user_delta-IsRising : IsRising (apply_user_delta old deleted upsert).next
  unfolding kept start
  apply_user_delta-IsRising =
      subst (λ r. IsRising r.next) (sym (apply_user_delta-closed old deleted upsert))
        (IsRising-values user _ final-IsMap.sorted final-IsMap.keyed)

  -- The deletions reported are the old users whose uuids are deleted.
  pub last_user-deleted_applied :
      (k : Text)
      → last_user k (apply_user_delta old deleted upsert).deleted_applied
        ≡ (if has_uuid k deleted then last_user k old else none)
  unfolding start
  last_user-deleted_applied k =
      ap (λ r. last_user k r.deleted_applied) (apply_user_delta-closed old deleted upsert)
      ∙ last_user-hits k start deleted start-IsMap
      ∙ ap (λ o. if has_uuid k deleted then o else none) (get-user_delta_entries_by_uuid k old)

  module _ (distinct : IsDistinct upsert) where
    pub last_user-added :
        (k : Text)
        → last_user k (apply_user_delta old deleted upsert).added
          ≡ is_new (remaining k) (last_user k upsert)
    unfolding kept start
    last_user-added k =
        ap (λ r. last_user k r.added) (apply_user_delta-closed old deleted upsert)
        ∙ last_user-picked user putting is_new news k kept upsert kept-IsMap distinct
        ∙ ap (λ o. is_new o (last_user k upsert)) (user_at-kept k)

    pub last_user-updated :
        (k : Text)
        → last_user k (apply_user_delta old deleted upsert).updated
          ≡ is_change (remaining k) (last_user k upsert)
    unfolding kept start
    last_user-updated k =
        ap (λ r. last_user k r.updated) (apply_user_delta-closed old deleted upsert)
        ∙ last_user-picked user putting is_change changes k kept upsert kept-IsMap distinct
        ∙ ap (λ o. is_change o (last_user k upsert)) (user_at-kept k)
