-- ===== src/PortForward/Difference.antt =====
-- When the inspection of src/port_forward.rs finds nothing missing and nothing extra.
use kelinode_rs.Prelude.{
  Bool, true, ◌&&◌, ◌||◌, Option, none, List, [], ◌∷◌, map, is_empty, any, ◌≡◌, refl, sym, ap, ◌∙◌,
  arith, ◌↔◌, inl, inr, Ordering, Ordering-cases,
}
use kelinode_rs.Prelude.Text.{Text, text_eq, text_eq_iff}
use kelinode_rs.Prelude.Order.{text_ord, text_cmp_eq, text_cmp_refl, text_cmp}
use kelinode_rs.BTreeMap.{BTreeMap, get, contains_key, is_some}
use kelinode_rs.BTreeMap.Laws.{IsSorted, Above, get-Above, Above-trans}
use kelinode_rs.BTreeMap.Extension.{get-collect, last_of, collect-IsSorted}
use kelinode_rs.PortForward.{PortForwardRule, FirewallAllowRule}
use kelinode_rs.PortForward.Spec.{
  parse_iptables_spec, port_forward_fields_key, expected_hysteria_managed_specs,
}
use kelinode_rs.PortForward.Inspect.{
  keyed, keyed_specs, specs_without, current_specs, inspect_managed_specs_with_comment,
}

-- Some spec of the list has the key.
abbrev pub has_key : Text → List Text → Bool
has_key k specs = any (λ spec. text_eq (port_forward_fields_key (parse_iptables_spec spec)) k) specs

last_of-has_key :
    (k : Text) (specs : List Text) (found : Option Text)
    → is_some (last_of k (map keyed specs) found) ≡ (has_key k specs || is_some found)
last_of-has_key k [] found = refl
last_of-has_key k (spec ∷ specs) found =
    let j = port_forward_fields_key (parse_iptables_spec spec) in
    last_of-has_key k specs _ ∙ ground (arith, text_eq_iff j k, text_cmp_eq k j, text_cmp_refl k)

contains_key-keyed_specs :
    (k : Text) (specs : List Text) → contains_key k (keyed_specs specs) ≡ has_key k specs
contains_key-keyed_specs k specs =
    ap is_some (get-collect k (map keyed specs)) ∙ last_of-has_key k specs none ∙ ground arith

without_none :
    (m other : BTreeMap Text Text)
    → is_empty (specs_without m other) ≡ true
    → (k : Text) → contains_key k m ≡ true
    → contains_key k other ≡ true
unfolding get
without_none [] other h k c = cc
without_none ((j, v) ∷ m) other h k c =
    let later : is_empty (specs_without m other) ≡ true
        → contains_key k m ≡ true
        → contains_key k other ≡ true =
      λ g. without_none m other g k in
    ground (arith, later, text_cmp_eq k j)

-- A key that the map holds above `j` is above `j`.
get_Above :
    (k j : Text) (m : BTreeMap Text Text)
    → Above j m
    → contains_key k m ≡ true
    → text_cmp k j ≡ Ordering.gt
get_Above k j m a c = elim (Ordering-cases (text_cmp k j)) [
  | inl lt ↦ cc (c, get-Above k m (Above-trans k j m lt a))
  | inr (inl e) ↦ cc (c, text_cmp_eq k j e, get-Above j m a)
  | inr (inr gt) ↦ gt
]

none_without :
    (m other : BTreeMap Text Text)
    → IsSorted m
    → ((k : Text) → contains_key k m ≡ true → contains_key k other ≡ true)
    → is_empty (specs_without m other) ≡ true
unfolding get
none_without [] other s h = refl
none_without ((j, v) ∷ m) other (a, s) h =
    rw (h j (ground (arith, text_cmp_refl j)))
      (none_without m other s (λ k c. h k (ground (arith, get_Above k j m a c))))

same_truth : (a b : Bool) → (a ≡ true → b ≡ true) → (b ≡ true → a ≡ true) → a ≡ b
same_truth a b h k = ground (arith, h, k)

and_parts : (a b : Bool) → (a && b) ≡ true → (a ≡ true) × (b ≡ true)
and_parts a b h = ground arith

and_intro : (a b : Bool) → a ≡ true → b ≡ true → (a && b) ≡ true
and_intro a b h k = ground arith

same_keys :
    (xs ys : List Text)
    → ((is_empty (specs_without (keyed_specs xs) (keyed_specs ys))
          && is_empty (specs_without (keyed_specs ys) (keyed_specs xs)))
        ≡ true)
      ↔ ((k : Text) → has_key k xs ≡ has_key k ys)
same_keys xs ys = (
  λ h k.
      let (missing, extra) = and_parts _ _ h in
      sym (contains_key-keyed_specs k xs)
      ∙ same_truth _ _ (without_none (keyed_specs xs) (keyed_specs ys) missing k)
          (without_none (keyed_specs ys) (keyed_specs xs) extra k)
      ∙ contains_key-keyed_specs k ys,
  λ h.
      let same =
        λ (k : Text). contains_key-keyed_specs k xs ∙ h k ∙ sym (contains_key-keyed_specs k ys) in
      and_intro _ _
        (none_without (keyed_specs xs) (keyed_specs ys) (collect-IsSorted _)
          (λ k c. sym (same k) ∙ c))
        (none_without (keyed_specs ys) (keyed_specs xs) (collect-IsSorted _) (λ k c. same k ∙ c)),
)

-- An inspection finds nothing missing and nothing extra exactly when the expected specs and the
-- current ones have the same keys.
pub inspect_managed_specs-settled :
    (tool : Text) (rules : List PortForwardRule) (allow_rules : List FirewallAllowRule)
    (prerouting_output input_output : Text) (stale_chain : Bool) (comment : Text)
    → let status =
        inspect_managed_specs_with_comment tool rules allow_rules prerouting_output input_output
          stale_chain comment in
      ((is_empty status.missing && is_empty status.extra) ≡ true)
      ↔ ((k : Text) → has_key k status.expected ≡ has_key k status.current)
unfolding inspect_managed_specs_with_comment
inspect_managed_specs-settled tool rules allow_rules prerouting_output input_output stale_chain
      comment =
    same_keys (expected_hysteria_managed_specs rules allow_rules)
      (current_specs prerouting_output input_output comment)
