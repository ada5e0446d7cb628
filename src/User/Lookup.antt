-- ===== src/User/Lookup.antt =====
-- Lists of users read by uuid (src/user.rs): the specification's look-up, lists with distinct uuids,
-- and the maps by uuid.
use kelinode_rs.Prelude.{
  Bool, true, false, Option, none, some, List, [], ◌∷◌, ◌++◌, map, if◌then◌else◌, Ordering, ◌≡◌,
  ◌≢◌, refl, sym, ap, ◌∙◌, inl, inr, arith, any, Ordering-cases,
}
use kelinode_rs.Prelude.Text.{Text, text_eq, text_eq_iff}
use kelinode_rs.Prelude.Order.{text_ord, text_cmp, text_cmp_eq, text_cmp_refl}
use kelinode_rs.BTreeMap.{BTreeMap, get, insert, is_some, remove, collect, extend, values}
use kelinode_rs.BTreeMap.Laws.{IsSorted, Above-trans, get-Above, get-insert, get-remove}
use kelinode_rs.BTreeMap.Extension.{get-collect, collect-IsSorted, last_of}
use kelinode_rs.User.{
  UserInfo, user, existing, by_uuid, entry_by_uuid, user_refs_by_uuid, user_delta_entries_by_uuid,
}

abbrev pub or_else {ℓ} : {A : Type ℓ} → Option A → Option A → Option A
or_else none b = b
or_else (some a) b = some a

-- The last user with a uuid, if there is one.
unfoldable pub last_user : Text → List UserInfo → Option UserInfo
last_user k [] = none
last_user k (u ∷ us) = or_else (last_user k us) (if text_eq k u.uuid then some u else none)

abbrev pub has_uuid : Text → List UserInfo → Bool
has_uuid k us = any (λ u. text_eq k u.uuid) us

abbrev pub IsDistinct : List UserInfo → Type 0
IsDistinct [] = Unit {0}
IsDistinct (u ∷ us) = (has_uuid u.uuid us ≡ false) × IsDistinct us

pub text_eq_refl : (s : Text) → text_eq s s ≡ true
text_eq_refl s = (text_eq_iff s s).1 refl

pub cmp-text_eq {ℓ} :
    {A : Type ℓ} (s t : Text) (x y : A)
    → elim (text_cmp s t) as (λ _. A) [ Ordering.eq ↦ x | _ ↦ y ] ≡ (if text_eq s t then x else y)
cmp-text_eq s t x y = ground (arith, text_eq_iff s t, text_cmp_eq s t, text_cmp_refl s)

text_eq_of_ne : (s t : Text) → s ≢ t → text_eq s t ≡ false
text_eq_of_ne s t h = ground (arith, text_eq_iff s t)

pub or_else-none {ℓ} : {A : Type ℓ} (a : Option A) → or_else a none ≡ a
or_else-none none = refl
or_else-none (some a) = refl

pub or_else_assoc {ℓ} :
    {A : Type ℓ} (a b c : Option A) → or_else (or_else a b) c ≡ or_else a (or_else b c)
or_else_assoc none b c = refl
or_else_assoc (some a) b c = refl

pub last_user-append :
    (k : Text) (us vs : List UserInfo)
    → last_user k (us ++ vs) ≡ or_else (last_user k vs) (last_user k us)
unfolding last_user
last_user-append k [] vs = ground arith
last_user-append k (u ∷ us) vs = ground (arith, last_user-append k us vs)

pub last_user-none : (k : Text) (us : List UserInfo) → has_uuid k us ≡ false → last_user k us ≡ none
unfolding last_user
last_user-none k [] h = refl
last_user-none k (u ∷ us) h = ground (arith, last_user-none k us)

pub is_some-last_user : (k : Text) (us : List UserInfo) → is_some (last_user k us) ≡ has_uuid k us
unfolding last_user
is_some-last_user k [] = refl
is_some-last_user k (u ∷ us) = ground (arith, is_some-last_user k us)

pub last_user_uuid :
    (k : Text) (us : List UserInfo) {u : UserInfo} → last_user k us ≡ some u → u.uuid ≡ k
unfolding last_user
last_user_uuid k [] h = cc
last_user_uuid k (v ∷ us) {u} h =
    ground (arith, λ (e : last_user k us ≡ some u). last_user_uuid k us e, text_eq_iff k v.uuid)

-- The entries of a map whose values are, or hold, users stand under their uuids.
module _ {V : Type 0} (f : V → UserInfo) where
  abbrev pub IsKeyed : BTreeMap Text V → Type 0
  IsKeyed [] = Unit {0}
  IsKeyed ((k, v) ∷ m) = ((f v).uuid ≡ k) × IsKeyed m

  pub insert-IsKeyed :
      (k : Text) (v : V) (m : BTreeMap Text V) → (f v).uuid ≡ k → IsKeyed m → IsKeyed (insert k v m)
  unfolding insert
  insert-IsKeyed k v [] e h = (e, tt)
  insert-IsKeyed k v ((j, w) ∷ m) e (d, h) = elim (Ordering-cases (text_cmp k j)) [
    | inl lt ↦ rw (lt, insert) (e, (d, h))
    | inr (inl eq) ↦ rw (eq, insert) (e, h)
    | inr (inr gt) ↦ rw (gt, insert) (d, insert-IsKeyed k v m e h)
  ]

  pub remove-IsKeyed : (k : Text) (m : BTreeMap Text V) → IsKeyed m → IsKeyed (remove k m)
  unfolding remove
  remove-IsKeyed k [] h = tt
  remove-IsKeyed k ((j, w) ∷ m) (d, h) = elim (Ordering-cases (text_cmp k j)) [
    | inl lt ↦ rw (lt, remove) (d, h)
    | inr (inl eq) ↦ rw (eq, remove) h
    | inr (inr gt) ↦ rw (gt, remove) (d, remove-IsKeyed k m h)
  ]

  pub get-IsKeyed :
      (k : Text) (m : BTreeMap Text V) {v : V} → IsKeyed m → get k m ≡ some v → (f v).uuid ≡ k
  unfolding get
  get-IsKeyed k [] h e = cc
  get-IsKeyed k ((j, w) ∷ m) {v} (d, h) e = elim (Ordering-cases (text_cmp k j)) [
    | inl lt ↦ ground arith
    | inr (inl eq) ↦ ground (arith, text_cmp_eq k j)
    | inr (inr gt) ↦ get-IsKeyed k m h (ground arith)
  ]

  abbrev pub user_of : Option V → Option UserInfo
  user_of none = none
  user_of (some v) = some (f v)

  get_past :
      (k j : Text) (w : V) (m : BTreeMap Text V)
      → text_cmp k j ≡ Ordering.gt
      → get k ((j, w) ∷ m) ≡ get k m
  unfolding get
  get_past k j w m gt = ground arith

  -- Reading the values as a list finds what the map holds.
  pub last_user-values :
      (k : Text) (m : BTreeMap Text V)
      → IsSorted m
      → IsKeyed m
      → last_user k (map f (values m)) ≡ user_of (get k m)
  unfolding last_user get
  last_user-values k [] s h = refl
  last_user-values k ((j, w) ∷ m) (a, s) (d, h) = elim (Ordering-cases (text_cmp k j)) [
    | inl lt ↦
        let other = text_eq_of_ne k (f w).uuid (λ e. cc (lt, e, d, text_cmp_refl j)) in
        let rest = last_user-values k m s h in
        let gone = get-Above k m (Above-trans k j m lt a) in ground arith
    | inr (inl e) ↦
        let same = (text_eq_iff k (f w).uuid).1 (text_cmp_eq k j e ∙ sym d) in
        let rest = last_user-values k m s h in
        let gone : get k m ≡ none = cc (get-Above j m a, text_cmp_eq k j e) in ground arith
    | inr (inr gt) ↦
        let other = text_eq_of_ne k (f w).uuid (λ e. cc (gt, e, d, text_cmp_refl j)) in
        ap (λ b. or_else (last_user k (map f (values m))) (if b then some (f w) else none)) other
        ∙ or_else-none _
        ∙ last_user-values k m s h
        ∙ ap user_of (sym (get_past k j w m gt))
  ]

pub get-insert_uuid :
    {V : Type 0} (j k : Text) (v : V) (m : BTreeMap Text V)
    → get j (insert k v m) ≡ (if text_eq j k then some v else get j m)
get-insert_uuid j k v m = get-insert j k v m ∙ cmp-text_eq j k (some v) (get j m)

pub get-remove_uuid :
    {V : Type 0} (j k : Text) (m : BTreeMap Text V)
    → IsSorted m
    → get j (remove k m) ≡ (if text_eq j k then none else get j m)
get-remove_uuid j k m s = get-remove j k m s ∙ cmp-text_eq j k none (get j m)

-- The map from a list holds the last user of each uuid.
module _ {V : Type 0} (f : V → UserInfo) (g : UserInfo → V)
    (same : (u : UserInfo) → f (g u) ≡ u) where
  abbrev entries : List UserInfo → List (Text × V)
  entries us = map (λ u. (u.uuid, g u)) us

  extend-IsKeyed :
      (m : BTreeMap Text V) (us : List UserInfo) → IsKeyed f m → IsKeyed f (extend m (entries us))
  unfolding extend
  extend-IsKeyed m [] h = h
  extend-IsKeyed m (u ∷ us) h =
      extend-IsKeyed (insert u.uuid (g u) m) us
        (insert-IsKeyed f u.uuid (g u) m (ap (λ v. v.uuid) (same u)) h)

  pub collect-IsKeyed : (us : List UserInfo) → IsKeyed f (collect (entries us))
  unfolding collect
  collect-IsKeyed us = extend-IsKeyed [] us tt

  last_of-entries :
      (k : Text) (us : List UserInfo) (found : Option V)
      → user_of f (last_of k (entries us) found) ≡ or_else (last_user k us) (user_of f found)
  unfolding last_user
  last_of-entries k [] found = refl
  last_of-entries k (u ∷ us) found =
      last_of-entries k us _ ∙ ground (arith, cmp-text_eq k u.uuid (some (g u)) found, same u)

  pub get-collect-entries :
      (k : Text) (us : List UserInfo) → user_of f (get k (collect (entries us))) ≡ last_user k us
  get-collect-entries k us =
      ap (user_of f) (get-collect k (entries us)) ∙ last_of-entries k us none ∙ or_else-none _

pub user_of_id : (o : Option UserInfo) → user_of (λ u. u) o ≡ o
user_of_id none = refl
user_of_id (some u) = refl

pub get-user_refs_by_uuid :
    (k : Text) (us : List UserInfo) → get k (user_refs_by_uuid us) ≡ last_user k us
unfolding user_refs_by_uuid
get-user_refs_by_uuid k us =
    sym (user_of_id _) ∙ get-collect-entries (λ u. u) (λ u. u) (λ u. refl) k us

pub user_refs_by_uuid-IsSorted : (us : List UserInfo) → IsSorted (user_refs_by_uuid us)
unfolding user_refs_by_uuid
user_refs_by_uuid-IsSorted us = collect-IsSorted (map by_uuid us)

pub user_refs_by_uuid-IsKeyed : (us : List UserInfo) → IsKeyed (λ u. u) (user_refs_by_uuid us)
unfolding user_refs_by_uuid
user_refs_by_uuid-IsKeyed us = collect-IsKeyed (λ u. u) (λ u. u) (λ u. refl) us

pub get-user_delta_entries_by_uuid :
    (k : Text) (us : List UserInfo)
    → user_of user (get k (user_delta_entries_by_uuid us)) ≡ last_user k us
unfolding user_delta_entries_by_uuid
get-user_delta_entries_by_uuid k us = get-collect-entries user existing (λ u. refl) k us

pub user_delta_entries_by_uuid-IsSorted :
    (us : List UserInfo) → IsSorted (user_delta_entries_by_uuid us)
unfolding user_delta_entries_by_uuid
user_delta_entries_by_uuid-IsSorted us = collect-IsSorted (map entry_by_uuid us)

pub user_delta_entries_by_uuid-IsKeyed :
    (us : List UserInfo) → IsKeyed user (user_delta_entries_by_uuid us)
unfolding user_delta_entries_by_uuid
user_delta_entries_by_uuid-IsKeyed us = collect-IsKeyed user existing (λ u. refl) us
