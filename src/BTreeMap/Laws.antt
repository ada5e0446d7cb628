-- ===== src/BTreeMap/Laws.antt =====
-- What the operations of a map do to its order and to each look-up.
use kelinode_rs.Prelude.{
  Ordering, none, some, List, [], ◌∷◌, ◌≡◌, refl, inl, inr, sym, arith, Ordering-cases,
}
use mathlib.Core.Path.{subst}
use kelinode_rs.Prelude.Order.{Ord}
use kelinode_rs.BTreeMap.{BTreeMap, get, insert, remove, extend}

-- The keys of a map rise strictly.
module _ {K : Type 0} ⦃o : Ord K⦄ {V : Type 0} where
  abbrev pub Above : K → BTreeMap K V → Type 0
  Above k [] = Unit {0}
  Above k ((j, _) ∷ _) = o.cmp k j ≡ Ordering.lt

  abbrev pub IsSorted : BTreeMap K V → Type 0
  IsSorted [] = Unit {0}
  IsSorted ((k, _) ∷ m) = Above k m × IsSorted m

  Above-insert :
      (j k : K) (v : V) (m : BTreeMap K V)
      → o.cmp j k ≡ Ordering.lt
      → Above j m
      → Above j (insert k v m)
  unfolding insert
  Above-insert j k v [] h a = h
  Above-insert j k v ((i, w) ∷ m) h a = ground arith

  pub insert-IsSorted : (k : K) (v : V) (m : BTreeMap K V) → IsSorted m → IsSorted (insert k v m)
  unfolding insert
  insert-IsSorted k v [] s = (tt, tt)
  insert-IsSorted k v ((i, w) ∷ m) (a, s) = elim (Ordering-cases (o.cmp k i)) [
    | inl lt ↦ rw (lt, insert) (lt, (a, s))
    | inr (inl e) ↦ rw (e, insert) (subst (λ x. Above x m) (sym (o.cmp_eq k i e)) a, s)
    | inr (inr gt) ↦
        rw (gt, insert) (Above-insert i k v m ((o.cmp_flip i k).1 gt) a, insert-IsSorted k v m s)
  ]

  pub Above-trans : (j k : K) (m : BTreeMap K V) → o.cmp j k ≡ Ordering.lt → Above k m → Above j m
  Above-trans j k [] h a = tt
  Above-trans j k ((i, w) ∷ m) h a = o.cmp_trans j k i h a

  Above-remove : (j k : K) (m : BTreeMap K V) → Above j m → IsSorted m → Above j (remove k m)
  unfolding remove
  Above-remove j k [] a s = tt
  Above-remove j k ((i, w) ∷ m) a (b, s) = ground (arith, Above-trans j i m)

  pub remove-IsSorted : (k : K) (m : BTreeMap K V) → IsSorted m → IsSorted (remove k m)
  unfolding remove
  remove-IsSorted k [] s = tt
  remove-IsSorted k ((i, w) ∷ m) (a, s) = elim (Ordering-cases (o.cmp k i)) [
    | inl lt ↦ rw (lt, remove) (a, s)
    | inr (inl e) ↦ rw (e, remove) s
    | inr (inr gt) ↦ rw (gt, remove) (Above-remove i k m a s, remove-IsSorted k m s)
  ]

  pub extend-IsSorted :
      (m : BTreeMap K V) (kvs : List (K × V)) → IsSorted m → IsSorted (extend m kvs)
  unfolding extend
  extend-IsSorted m [] s = s
  extend-IsSorted m ((k, v) ∷ kvs) s = extend-IsSorted (insert k v m) kvs (insert-IsSorted k v m s)

  pub get-Above : (k : K) (m : BTreeMap K V) → Above k m → get k m ≡ none
  unfolding get
  get-Above k [] a = refl
  get-Above k ((j, w) ∷ m) a = ground arith

  -- No order of the map is needed here: `insert` and `get` search alike.
  pub get-insert :
      (j k : K) (v : V) (m : BTreeMap K V)
      → get j (insert k v m) ≡ elim (o.cmp j k) [ Ordering.eq ↦ some v | _ ↦ get j m ]
  unfolding get insert
  get-insert j k v [] = ground arith
  get-insert j k v ((i, w) ∷ m) = ground (
    arith,
    get-insert j k v m,
    o.cmp_eq j k,
    o.cmp_eq k i,
    o.cmp_eq j i,
    o.cmp_refl j,
    o.cmp_trans j k i,
    o.cmp_trans j i k,
    o.cmp_trans i j k,
    o.cmp_trans i k j,
    o.cmp_flip i k,
    o.cmp_flip j k,
    o.cmp_flip k j,
    o.cmp_flip i j,
  )

  pub get-remove :
      (j k : K) (m : BTreeMap K V)
      → IsSorted m
      → get j (remove k m) ≡ elim (o.cmp j k) [ Ordering.eq ↦ none | _ ↦ get j m ]
  unfolding get remove
  get-remove j k [] s = ground arith
  get-remove j k ((i, w) ∷ m) (a, s) = ground (
    arith,
    get-remove j k m s,
    get-Above i m a,
    get-Above j m,
    Above-trans j i m,
    o.cmp_eq j k,
    o.cmp_eq k i,
    o.cmp_eq j i,
    o.cmp_refl j,
    o.cmp_refl k,
    o.cmp_trans j k i,
    o.cmp_trans j i k,
    o.cmp_trans i k j,
    o.cmp_flip i k,
    o.cmp_flip k j,
    o.cmp_flip j k,
    o.cmp_flip i j,
  )
