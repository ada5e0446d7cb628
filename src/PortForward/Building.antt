-- ===== src/PortForward/Building.antt =====
-- The invariant of the rule builders of src/port_forward.rs: of a protocol, no port is forwarded to
-- two targets, none of its nodes' server ports is forwarded, and each rule is backed by a range.
use kelinode_rs.Prelude.{
  ℕ, Bool, true, false, ◌&&◌, ◌||◌, List, [], ◌∷◌, ◌++◌, map, ◌==◌, ◌≡◌, ◌≢◌, refl, sym, ap, ◌∙◌,
  arith, All, All-append, any, any-append, ◌⊎◌, inl, inr, ==_iff, if_intro,
}
use mathlib.Core.Path.{subst}
use kelinode_rs.Prelude.Text.{Text, text_eq, text_eq_iff}
use native.Mathlib.Decide.{ℕ_discrete}
use kelinode_rs.Prelude.Order.{text_ord}
use kelinode_rs.BTreeMap.{contains_key}
use kelinode_rs.PortForward.{
  PortForwardMatcher, PortForwardRange, PortForwardRule, AllocatedPortForwardRange,
  port_forward_matchers_from_ranges,
}
use kelinode_rs.PortForward.Ranges.{in_range, covers, IsPortRange, taken}
use kelinode_rs.PortForward.Matchers.{matches, matches-port_forward_matchers_from_ranges}
use kelinode_rs.PortForward.Rules.{
  Building, allocate, rule_key, push_matcher, push_matchers, forward_ranges,
}

-- Some node forwards the port of the protocol to the target.
abbrev pub claims : ℕ → Text → ℕ → List AllocatedPortForwardRange → Bool
claims port protocol target allocated =
    any (λ a. a.target_port == target && (text_eq a.protocol protocol && in_range port a.range))
      allocated

abbrev pub is_target : ℕ → List ℕ → Bool
is_target port targets = any (λ p. p == port) targets

abbrev pub IsUnique : List AllocatedPortForwardRange → Type 0
IsUnique allocated =
    (port : ℕ) (protocol : Text) (t t' : ℕ)
    → claims port protocol t allocated ≡ true
    → claims port protocol t' allocated ≡ true
    → t ≡ t'

abbrev pub IsClear : (Text → List ℕ) → List AllocatedPortForwardRange → Type 0
IsClear targets allocated =
    (port : ℕ) (protocol : Text) (t : ℕ)
    → claims port protocol t allocated ≡ true
    → is_target port (targets protocol) ≡ false

abbrev pub IsBacked : List AllocatedPortForwardRange → PortForwardRule → Type 0
IsBacked allocated rule =
    (port : ℕ)
    → matches port rule.matcher ≡ true
    → claims port rule.protocol rule.target_port allocated ≡ true

pub record IsBuilt (targets : Text → List ℕ) (b : Building) : Type 0 where
  pub unique : IsUnique b.allocated
  pub clear : IsClear targets b.allocated
  pub backed : All (IsBacked b.allocated) b.rules

All-mono :
    {A : Type 0} (P Q : A → Type 0) (xs : List A) → ((x : A) → P x → Q x) → All P xs → All Q xs
All-mono P Q [] f h = tt
All-mono P Q (x ∷ xs) f (h, hs) = (f x h, All-mono P Q xs f hs)

claims-taken :
    (port : ℕ) (protocol : Text) (t target : ℕ) (allocated : List AllocatedPortForwardRange)
    → t ≢ target
    → claims port protocol t allocated ≡ true
    → taken port target protocol allocated ≡ true
claims-taken port protocol t target [] ne h = cc
claims-taken port protocol t target (a ∷ allocated) ne h =
    ground (arith, claims-taken port protocol t target allocated ne)

claims-append :
    (port : ℕ) (protocol : Text) (t : ℕ) (xs ys : List AllocatedPortForwardRange)
    → claims port protocol t (xs ++ ys) ≡ (claims port protocol t xs || claims port protocol t ys)
claims-append port protocol t xs ys =
    any-append (λ a. a.target_port == t && (text_eq a.protocol protocol && in_range port a.range))
      xs ys

module _ (id target_port : ℕ) (protocol comment prefix : Text) where
  claims-allocate :
      (port : ℕ) (protocol' : Text) (t : ℕ) (ranges : List PortForwardRange)
      → claims port protocol' t (map (allocate id target_port protocol comment prefix) ranges)
        ≡ (target_port == t && (text_eq protocol protocol' && covers port ranges))
  unfolding allocate
  claims-allocate port protocol' t [] = ground arith
  claims-allocate port protocol' t (r ∷ ranges) =
      ground (arith, claims-allocate port protocol' t ranges)

  -- A rule is pushed only for the target and the protocol of this node.
  abbrev Selects : List AllocatedPortForwardRange → PortForwardMatcher → Type 0
  Selects allocated m =
      (port : ℕ) → matches port m ≡ true → claims port protocol target_port allocated ≡ true

  abbrev Keeps : List AllocatedPortForwardRange → Building → Type 0
  Keeps allocated b = (b.allocated ≡ allocated) × All (IsBacked allocated) b.rules

  push_matcher-Keeps :
      (allocated : List AllocatedPortForwardRange) (b : Building) (m : PortForwardMatcher)
      → Selects allocated m
      → Keeps allocated b
      → Keeps allocated (push_matcher id target_port protocol comment prefix b m)
  unfolding push_matcher
  push_matcher-Keeps allocated b m selects (same, backed) =
      let rule : PortForwardRule = record {
        matcher = m;
        target_port = target_port;
        protocol = protocol;
        comment = comment;
      } in
      if_intro (Keeps allocated)
        (contains_key (rule_key id target_port protocol comment prefix m) b.seen)
        (λ _. (same, backed))
        (λ _. (same, All-append (IsBacked allocated) b.rules (rule ∷ []) backed (selects, tt)))

  push_matchers-Keeps :
      (allocated : List AllocatedPortForwardRange) (b : Building)
      (matchers : List PortForwardMatcher)
      → All (Selects allocated) matchers
      → Keeps allocated b
      → Keeps allocated (push_matchers id target_port protocol comment prefix b matchers)
  unfolding push_matchers
  push_matchers-Keeps allocated b [] h k = k
  push_matchers-Keeps allocated b (m ∷ matchers) (h, hs) k =
      push_matchers-Keeps allocated (push_matcher id target_port protocol comment prefix b m)
        matchers hs (push_matcher-Keeps allocated b m h k)

  Selects-All :
      (allocated : List AllocatedPortForwardRange) (matchers : List PortForwardMatcher)
      → ((port : ℕ)
          → any (matches port) matchers ≡ true
          → claims port protocol target_port allocated ≡ true)
      → All (Selects allocated) matchers
  Selects-All allocated [] h = tt
  Selects-All allocated (m ∷ matchers) h = (
    (λ port e. h port (ground arith)),
    Selects-All allocated matchers (λ port e. h port (ground arith)),
  )

  module _ (targets : Text → List ℕ) (b : Building) (ranges : List PortForwardRange) where
    abbrev extended : List AllocatedPortForwardRange
    extended = b.allocated ++ map (allocate id target_port protocol comment prefix) ranges

    pub claims-extended :
        (port : ℕ) (protocol' : Text) (t : ℕ)
        → claims port protocol' t extended ≡ (
            claims port protocol' t b.allocated
            || (target_port == t && (text_eq protocol protocol' && covers port ranges)))
    claims-extended port protocol' t =
        claims-append port protocol' t b.allocated _
        ∙ ap (λ x. claims port protocol' t b.allocated || x)
            (claims-allocate port protocol' t ranges)

    abbrev pub IsFree : Type 0
    IsFree =
        (port : ℕ)
        → covers port ranges ≡ true
        → (taken port target_port protocol b.allocated ≡ false)
          × (is_target port (targets protocol) ≡ false)

    -- A port claimed anew is claimed by no other target.
    new_owner :
        IsFree
        → (port : ℕ) (protocol' : Text) (t : ℕ) → claims port protocol' t b.allocated ≡ true
        → text_eq protocol protocol' ≡ true
        → covers port ranges ≡ true
        → t ≡ target_port
    new_owner free port protocol' t h same c = elim (ℕ_discrete t target_port) [
      | yes e ↦ e
      | no ne ↦
          let p = (text_eq_iff protocol protocol').0 same in
          cc (claims-taken port protocol t target_port b.allocated ne (rw p h), (free port c).0)
    ]

    abbrev Added : ℕ → Text → ℕ → Type 0
    Added port p t =
        ((target_port == t) ≡ true) × (text_eq protocol p ≡ true) × (covers port ranges ≡ true)

    claims-cases :
        (port : ℕ) (p : Text) (t : ℕ)
        → claims port p t extended ≡ true
        → (claims port p t b.allocated ≡ true) ⊎ Added port p t
    claims-cases port p t h =
        old_or_new (claims port p t b.allocated) (target_port == t) (text_eq protocol p)
          (covers port ranges) (sym (claims-extended port p t) ∙ h)
      where
        old_or_new :
            (w x y z : Bool)
            → (w || (x && (y && z))) ≡ true
            → (w ≡ true) ⊎ ((x ≡ true) × (y ≡ true) × (z ≡ true))
        old_or_new w x y z e = ground arith

    IsUnique-extended : IsFree → IsUnique b.allocated → IsUnique extended
    IsUnique-extended free unique port p t t' h k = elim (claims-cases port p t h) [
      | inl old ↦ elim (claims-cases port p t' k) [
        | inl old' ↦ unique port p t t' old old'
        | inr (e, same, c) ↦ new_owner free port p t old same c ∙ (==_iff target_port t').0 e
      ]
      | inr (e, same, c) ↦ elim (claims-cases port p t' k) [
        | inl old' ↦ sym ((==_iff target_port t).0 e) ∙ sym (new_owner free port p t' old' same c)
        | inr (e', _, _) ↦ sym ((==_iff target_port t).0 e) ∙ (==_iff target_port t').0 e'
      ]
    ]

    IsClear-extended : IsFree → IsClear targets b.allocated → IsClear targets extended
    IsClear-extended free clear port p t h = elim (claims-cases port p t h) [
      | inl old ↦ clear port p t old
      | inr (_, same, c) ↦
          subst (λ q. is_target port (targets q) ≡ false) ((text_eq_iff protocol p).0 same)
            (free port c).1
    ]

    pub forward_ranges-IsBuilt :
        IsFree
        → IsBuilt targets b
        → All IsPortRange ranges
        → IsBuilt targets (forward_ranges id target_port protocol comment prefix b ranges)
    unfolding forward_ranges
    forward_ranges-IsBuilt free inv valid =
        let matchers = port_forward_matchers_from_ranges ranges in
        let started : Building = record b { allocated = extended } in
        let (same, backed) =
          push_matchers-Keeps extended started matchers
            (Selects-All extended matchers (λ port e. ground (
              arith,
              claims-extended port protocol target_port,
              matches-port_forward_matchers_from_ranges port ranges valid,
              text_eq_iff protocol protocol,
            )))
            (
              refl,
              All-mono (IsBacked b.allocated) (IsBacked extended) b.rules
                  (λ rule h port e.
                    ground (arith, claims-extended port rule.protocol rule.target_port, h port))
                  inv.backed,
            ) in
        record {
          unique = subst IsUnique (sym same) (IsUnique-extended free inv.unique);
          clear = subst (IsClear targets) (sym same) (IsClear-extended free inv.clear);
          backed =
              subst
                (λ l.
                  All (IsBacked l)
                    (push_matchers id target_port protocol comment prefix started matchers).rules)
                (sym same) backed;
        }
