-- ===== src/BTreeMap.antt =====
-- The standard library's `BTreeMap` and `BTreeSet`, as far as the code uses them: an association
-- list in the order of its keys. `user.rs` and `report.rs` hold users and snapshots in such maps.
pub mod Laws
pub mod Extension
use kelinode_rs.Prelude.{ℕ, Bool, true, false, Ordering, Option, none, some, List, [], ◌∷◌, map}
use kelinode_rs.Prelude.Order.{Ord}

-- The state of a map is its entries; `values` and `keys` iterate in the order of the keys.
abbrev pub BTreeMap : Type 0 → Type 0 → Type 0
BTreeMap K V = List (K × V)

module _ {K : Type 0} ⦃o : Ord K⦄ {V : Type 0} where
  -- `map.get(k)`
  unfoldable pub get : K → BTreeMap K V → Option V
  get k [] = none
  get k ((j, w) ∷ m) = elim (o.cmp k j) [
    | Ordering.lt ↦ none
    | Ordering.eq ↦ some w
    | Ordering.gt ↦ get k m
  ]

  -- `map.insert(k, v)`
  unfoldable pub insert : K → V → BTreeMap K V → BTreeMap K V
  insert k v [] = (k, v) ∷ []
  insert k v ((j, w) ∷ m) = elim (o.cmp k j) [
    | Ordering.lt ↦ (k, v) ∷ (j, w) ∷ m
    | Ordering.eq ↦ (k, v) ∷ m
    | Ordering.gt ↦ (j, w) ∷ insert k v m
  ]

  -- The map that `map.remove(k)` leaves; its result is `get k map`.
  unfoldable pub remove : K → BTreeMap K V → BTreeMap K V
  remove k [] = []
  remove k ((j, w) ∷ m) = elim (o.cmp k j) [
    | Ordering.lt ↦ (j, w) ∷ m
    | Ordering.eq ↦ m
    | Ordering.gt ↦ (j, w) ∷ remove k m
  ]

  -- `iter.collect()` from the map `m` on: a later entry of a key replaces an earlier one.
  unfoldable pub extend : BTreeMap K V → List (K × V) → BTreeMap K V
  unfolding insert
  extend m [] = m
  extend m ((k, v) ∷ kvs) = extend (insert k v m) kvs

  unfoldable pub collect : List (K × V) → BTreeMap K V
  unfolding extend
  collect kvs = extend [] kvs

abbrev pub is_some {ℓ} : {A : Type ℓ} → Option A → Bool
is_some none = false
is_some (some _) = true

abbrev pub contains_key : {K V : Type 0} ⦃o : Ord K⦄ → K → BTreeMap K V → Bool
contains_key k m = is_some (get k m)

abbrev pub values : {K V : Type 0} → BTreeMap K V → List V
values [] = []
values ((_, v) ∷ m) = v ∷ values m

abbrev pub keys : {K V : Type 0} → BTreeMap K V → List K
keys [] = []
keys ((k, _) ∷ m) = k ∷ keys m
