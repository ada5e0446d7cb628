-- ===== src/BTreeMap/Extension.antt =====
-- A sorted map is determined by its look-ups, and what a collected map holds.
use mathlib.Core.Path.{subst}
use kelinode_rs.Prelude.{
  Ordering, none, some, Option, List, [], ◌∷◌, ◌≡◌, refl, sym, ap, ◌∙◌, ◌++◌, append-nil,
  append_assoc, inl, inr, arith, Ordering-cases,
}
use kelinode_rs.Prelude.Order.{Ord}
use kelinode_rs.BTreeMap.{BTreeMap, get, insert, extend, collect}
use kelinode_rs.BTreeMap.Laws.{Above, Above-trans, IsSorted, get-Above, get-insert, extend-IsSorted}

module _ {K : Type 0} ⦃o : Ord K⦄ {V : Type 0} where
  pub collect-IsSorted : (kvs : List (K × V)) → IsSorted (collect kvs)
  unfolding collect
  collect-IsSorted kvs = extend-IsSorted [] kvs tt

  -- The last entry of a key in a list.
  abbrev pub last_of : K → List (K × V) → Option V → Option V
  last_of k [] found = found
  last_of k ((j, v) ∷ kvs) found =
      last_of k kvs (elim (o.cmp k j) [ Ordering.eq ↦ some v | _ ↦ found ])

  pub get-extend :
      (k : K) (m : BTreeMap K V) (kvs : List (K × V))
      → get k (extend m kvs) ≡ last_of k kvs (get k m)
  unfolding extend
  get-extend k m [] = refl
  get-extend k m ((j, v) ∷ kvs) =
      get-extend k (insert j v m) kvs ∙ ap (last_of k kvs) (get-insert k j v m)

  pub get-collect : (k : K) (kvs : List (K × V)) → get k (collect kvs) ≡ last_of k kvs none
  unfolding collect get
  get-collect k kvs = get-extend k [] kvs

  get_head : (k : K) (v : V) (m : BTreeMap K V) → get k ((k, v) ∷ m) ≡ some v
  unfolding get
  get_head k v m = ground (arith, o.cmp_refl k)

  get_below :
      (j k : K) (v : V) (m : BTreeMap K V) → o.cmp j k ≡ Ordering.lt → get j ((k, v) ∷ m) ≡ none
  unfolding get
  get_below j k v m h = ground arith

  get_tail :
      (x k : K) (v w : V) (m n : BTreeMap K V)
      → Above k m
      → Above k n
      → get x ((k, v) ∷ m) ≡ get x ((k, w) ∷ n)
      → get x m ≡ get x n
  unfolding get
  get_tail x k v w m n a b h = elim (Ordering-cases (o.cmp x k)) [
    | inl lt ↦ cc (get-Above x m (Above-trans x k m lt a), get-Above x n (Above-trans x k n lt b))
    | inr (inl e) ↦ cc (o.cmp_eq x k e, get-Above k m a, get-Above k n b)
    | inr (inr gt) ↦ ground arith
  ]

  get_nil : (k : K) → get {V = V} k [] ≡ none
  unfolding get
  get_nil k = refl

  -- Maps with the same look-ups are the same map.
  pub map_ext :
      (m n : BTreeMap K V) → IsSorted m → IsSorted n → ((k : K) → get k m ≡ get k n) → m ≡ n
  map_ext [] [] s t h = refl
  map_ext [] ((k, v) ∷ n) s t h = cc (h k, get_head k v n, get_nil k)
  map_ext ((k, v) ∷ m) [] s t h = cc (h k, get_head k v m, get_nil k)
  map_ext ((k, v) ∷ m) ((j, w) ∷ n) (a, s) (b, t) h = elim (Ordering-cases (o.cmp k j)) [
    | inl lt ↦ cc (h k, get_head k v m, get_below k j w n lt)
    | inr (inl e) ↦
        let q = o.cmp_eq k j e in
        let b' : Above k n = subst (λ x. Above x n) (sym q) b in
        let heads : some v ≡ some w = cc (h k, get_head k v m, get_head j w n, q) in
        let rest = map_ext m n s t (λ x. get_tail x k v w m n a b' (cc (h x, q))) in
        cc (q, heads, rest)
    | inr (inr gt) ↦ cc (h j, get_head j w n, get_below j k v m ((o.cmp_flip j k).1 gt))
  ]

  -- A sorted map is what is collected from its entries.
  above_last :
      (j k : K) (v w : V) (m n : BTreeMap K V)
      → IsSorted ((j, w) ∷ m ++ (k, v) ∷ n)
      → o.cmp j k ≡ Ordering.lt
  above_last j k v w [] n (a, _) = a
  above_last j k v w ((i, x) ∷ m) n (a, s) = o.cmp_trans j i k a (above_last i k v x m n s)

  insert_last :
      (k : K) (v : V) (m n : BTreeMap K V)
      → IsSorted (m ++ (k, v) ∷ n)
      → insert k v m ≡ m ++ (k, v) ∷ []
  unfolding insert
  insert_last k v [] n s = refl
  insert_last k v ((j, w) ∷ m) n s =
      rw ((o.cmp_flip j k).0 (above_last j k v w m n s), insert)
        (ap (λ r. (j, w) ∷ r) (insert_last k v m n s.1))

  pub extend_sorted : (m n : BTreeMap K V) → IsSorted (m ++ n) → extend m n ≡ m ++ n
  unfolding extend
  extend_sorted m [] s = sym (append-nil m)
  extend_sorted m ((k, v) ∷ n) s =
      let one = append_assoc m ((k, v) ∷ []) n in
      ap (λ r. extend r n) (insert_last k v m n s)
      ∙ extend_sorted (m ++ (k, v) ∷ []) n (subst IsSorted (sym one) s)
      ∙ one
