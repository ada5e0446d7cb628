-- ===== src/Machine/Keys.antt =====
-- The keys by which src/machine.rs tells the nodes of the profiles apart.
use kelinode_rs.Prelude.{
  ℕ, ◌≤◌, true, false, [], ◌∷◌, ◌++◌, append_assoc, ◌≡◌, refl, sym, ap, ◌∙◌, arith,
}
use kelinode_rs.Prelude.Text.{Text, has_char, is_digit}
use kelinode_rs.Prelude.Decimal.{decimal, u32_max, parse_u32}
use kelinode_rs.Prelude.Decimal.Laws.{decimal-AllDigits, AllDigits-without, parse_u32-decimal}
use kelinode_rs.Machine.{NodeConfig}
use kelinode_rs.Machine.Names.{machine_node_key, without_slashes}

pub decimal_injective : (m n : ℕ) → m ≤ u32_max → n ≤ u32_max → decimal m ≡ decimal n → m ≡ n
decimal_injective m n hm hn e = cc (ap parse_u32 e, parse_u32-decimal m hm, parse_u32-decimal n hn)

decimal_without : (n : ℕ) → has_char b'#' (decimal n) ≡ false
unfolding is_digit
decimal_without n = AllDigits-without b'#' (decimal n) refl (decimal-AllDigits n)

has_char_at : (c : ℕ) (s t : Text) → has_char c (s ++ c ∷ t) ≡ true
has_char_at c [] t = ground arith
has_char_at c (d ∷ s) t = ground (arith, has_char_at c s t)

-- Two texts that are equal have the same parts before and after their last mark.
last_mark :
    (c : ℕ) (s s1 t t1 : Text)
    → has_char c t ≡ false
    → has_char c t1 ≡ false
    → s ++ c ∷ t ≡ s1 ++ c ∷ t1
    → (s ≡ s1) × (t ≡ t1)
last_mark c [] [] t t1 h h1 e = (refl, cc)
last_mark c [] (d ∷ s1) t t1 h h1 e =
    let q : t ≡ s1 ++ c ∷ t1 = cc in cc (sym h ∙ (ap (has_char c) q ∙ has_char_at c s1 t1))
last_mark c (d ∷ s) [] t t1 h h1 e =
    let q : t1 ≡ s ++ c ∷ t = cc in cc (sym h1 ∙ (ap (has_char c) q ∙ has_char_at c s t))
last_mark c (d ∷ s) (d1 ∷ s1) t t1 h h1 e = let (p, q) = last_mark c s s1 t t1 h h1 cc in (cc, q)

-- The keys of two nodes whose ids are of 32 bits are the same only if the nodes have the same panel,
-- slashes at its end aside, the same machine and the same id.
pub machine_node_key_injective :
    (a b : NodeConfig)
    → a.machine_id ≤ u32_max
    → a.node_id ≤ u32_max
    → b.machine_id ≤ u32_max
    → b.node_id ≤ u32_max
    → machine_node_key a ≡ machine_node_key b
    → (without_slashes a.url ≡ without_slashes b.url)
      × (a.machine_id ≡ b.machine_id)
      × (a.node_id ≡ b.node_id)
unfolding machine_node_key
machine_node_key_injective a b am an bm bn e =
    let u = without_slashes a.url in
    let v = without_slashes b.url in
    let m = decimal a.machine_id in
    let k = decimal b.machine_id in
    let (front, ids) =
      last_mark b'#' (u ++ b'#' ∷ m) (v ++ b'#' ∷ k) (decimal a.node_id) (decimal b.node_id)
        (decimal_without a.node_id) (decimal_without b.node_id)
        (append_assoc u (b'#' ∷ m) (b'#' ∷ decimal a.node_id)
          ∙ (e ∙ sym (append_assoc v (b'#' ∷ k) (b'#' ∷ decimal b.node_id)))) in
    let (urls, machines) =
      last_mark b'#' u v m k (decimal_without a.machine_id) (decimal_without b.machine_id) front in
    (
      urls,
      decimal_injective a.machine_id b.machine_id am bm machines,
      decimal_injective a.node_id b.node_id an bn ids,
    )
