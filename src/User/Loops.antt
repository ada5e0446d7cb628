-- ===== src/User/Loops.antt =====
-- The loops of src/user.rs have one shape: each user of a list meets a map by uuid, may be reported,
-- and changes the map at its own uuid. What such a loop reports and leaves, for any of them.
use kelinode_rs.Prelude.{
  false, Option, none, some, List, [], ◌∷◌, ◌++◌, if◌then◌else◌, ◌≡◌, refl, sym, ap, ◌∙◌, inl, inr,
  arith, Bool-cases, Option-cases,
}
use kelinode_rs.Prelude.Text.{Text, text_eq, text_eq_iff}
use kelinode_rs.Prelude.Order.{text_ord}
use kelinode_rs.BTreeMap.{BTreeMap, get, remove}
use kelinode_rs.BTreeMap.Laws.{IsSorted, remove-IsSorted}
use kelinode_rs.User.Lookup.{
  or_else, last_user, last_user-append, last_user_uuid, last_user-none, IsDistinct, IsKeyed,
  remove-IsKeyed, get-IsKeyed, user_of, get-remove_uuid,
}
use kelinode_rs.User.{UserInfo, user_changed}

abbrev pub opt_list : Option UserInfo → List UserInfo
opt_list none = []
opt_list (some u) = u ∷ []

-- A user is reported as added if the map has none of its uuid, as updated if it has another.
abbrev pub is_new : Option UserInfo → Option UserInfo → Option UserInfo
is_new none u = u
is_new (some _) u = none

abbrev pub is_change : Option UserInfo → Option UserInfo → Option UserInfo
is_change none u = none
is_change (some old) none = none
is_change (some old) (some u) = if user_changed old u then some u else none

-- A user with this uuid, if there is one.
abbrev pub Owns : Text → Option UserInfo → Type 0
Owns k none = Unit {0}
Owns k (some u) = u.uuid ≡ k

pub last_user-Owns : (k : Text) (us : List UserInfo) → Owns k (last_user k us)
last_user-Owns k us = elim (Option-cases (last_user k us)) [
  | inl e ↦ rw e tt
  | inr (u, e) ↦ rw e (last_user_uuid k us e)
]

pub last_user-opt_list :
    (k j : Text) (o : Option UserInfo)
    → Owns j o
    → last_user k (opt_list o) ≡ (if text_eq k j then o else none)
unfolding last_user
last_user-opt_list k j none h = ground arith
last_user-opt_list k j (some u) h = ground arith

module _ {V : Type 0} (f : V → UserInfo) where
  abbrev pub user_at : Text → BTreeMap Text V → Option UserInfo
  user_at k m = user_of f (get k m)

  pub record IsMap (m : BTreeMap Text V) : Type 0 where
    pub sorted : IsSorted m
    pub keyed : IsKeyed f m

  pub user_at-Owns : (k : Text) (m : BTreeMap Text V) → IsMap m → Owns k (user_at k m)
  user_at-Owns k m h = elim (Option-cases (get k m)) [
    | inl e ↦ rw e tt
    | inr (v, e) ↦ rw e (get-IsKeyed f k m h.keyed e)
  ]

  pub remove-IsMap : (k : Text) (m : BTreeMap Text V) → IsMap m → IsMap (remove k m)
  remove-IsMap k m h = record {
    sorted = remove-IsSorted k m h.sorted;
    keyed = remove-IsKeyed f k m h.keyed;
  }

  pub user_at-remove :
      (j k : Text) (m : BTreeMap Text V)
      → IsMap m
      → user_at j (remove k m) ≡ (if text_eq j k then none else user_at j m)
  user_at-remove j k m h = ground (arith, get-remove_uuid j k m h.sorted)

  -- A loop that changes the map by `step` and reports by `pick`.
  module _ (step : BTreeMap Text V → UserInfo → BTreeMap Text V)
      (pick : Option UserInfo → Option UserInfo → Option UserInfo) where
    unfoldable pub run : BTreeMap Text V → List UserInfo → BTreeMap Text V
    run m [] = m
    run m (u ∷ us) = run (step m u) us

    unfoldable pub picked : BTreeMap Text V → List UserInfo → List UserInfo
    picked m [] = []
    picked m (u ∷ us) = opt_list (pick (user_at u.uuid m) (some u)) ++ picked (step m u) us

    pub record IsLoop : Type 0 where
      pub step_map : (m : BTreeMap Text V) (u : UserInfo) → IsMap m → IsMap (step m u)
      pub step_apart :
          (k : Text) (m : BTreeMap Text V) (u : UserInfo)
          → IsMap m
          → text_eq k u.uuid ≡ false
          → user_at k (step m u) ≡ user_at k m
      pub pick_owns :
          (o : Option UserInfo) (u : UserInfo) → Owns u.uuid o → Owns u.uuid (pick o (some u))
      pub pick_none : (o : Option UserInfo) → pick o none ≡ none

    module _ (l : IsLoop) where
      pub run-IsMap : (m : BTreeMap Text V) (us : List UserInfo) → IsMap m → IsMap (run m us)
      unfolding run
      run-IsMap m [] h = h
      run-IsMap m (u ∷ us) h = run-IsMap (step m u) us (l.step_map m u h)

      -- With distinct uuids each user meets the map as it was before the loop.
      pub last_user-picked :
          (k : Text) (m : BTreeMap Text V) (us : List UserInfo)
          → IsMap m
          → IsDistinct us
          → last_user k (picked m us) ≡ pick (user_at k m) (last_user k us)
      unfolding picked last_user
      last_user-picked k m [] h d = sym (l.pick_none _)
      last_user-picked k m (u ∷ us) h (d, ds) =
          let here = pick (user_at u.uuid m) (some u) in
          let reported =
            last_user-opt_list k u.uuid here
              (l.pick_owns (user_at u.uuid m) u (user_at-Owns u.uuid m h)) in
          last_user-append k (opt_list here) (picked (step m u) us)
          ∙ ap (λ x. or_else x (last_user k (opt_list here)))
              (last_user-picked k (step m u) us (l.step_map m u h) ds)
          ∙ elim (Bool-cases (text_eq k u.uuid)) [
            | inl same ↦
                let e = (text_eq_iff k u.uuid).0 same in
                let none_left : last_user k us ≡ none = cc (last_user-none u.uuid us d, e) in
                ground (arith, reported, l.pick_none (user_at k (step m u)))
            | inr other ↦
                ground (arith, reported, l.step_apart k m u h other, l.pick_none (user_at k m))
          ]

pub is_new-Owns : (o : Option UserInfo) (u : UserInfo) → Owns u.uuid (is_new o (some u))
is_new-Owns none u = refl
is_new-Owns (some _) u = tt

pub is_change-Owns : (o : Option UserInfo) (u : UserInfo) → Owns u.uuid (is_change o (some u))
is_change-Owns none u = tt
is_change-Owns (some old) u = elim (Bool-cases (user_changed old u)) [
  | inl e ↦ rw e refl
  | inr e ↦ rw e tt
]

pub is_new-none : (o : Option UserInfo) → is_new o none ≡ none
is_new-none o = ground arith

pub is_change-none : (o : Option UserInfo) → is_change o none ≡ none
is_change-none o = ground arith
