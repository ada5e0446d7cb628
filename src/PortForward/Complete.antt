-- ===== src/PortForward/Complete.antt =====
-- That the Hysteria2 builder of src/port_forward.rs forwards what it allocates: a rule is left out
-- only for one with the same key, and that one matches the same ports.
use kelinode_rs.Prelude.{
  ℕ, Bool, true, false, ◌&&◌, ◌||◌, some, List, [], ◌∷◌, ◌++◌, map, if◌then◌else◌, ◌≡◌, refl, sym,
  ap, ◌∙◌, arith, All, All-append, any, any-append, inl, inr, Bool-cases, if_intro,
}
use kelinode_rs.Prelude.Text.{Text, text, text_eq, text_eq_iff, join, is_digit}
use kelinode_rs.Prelude.Decimal.{decimal}
use kelinode_rs.Prelude.Order.{text_ord, text_cmp_eq, text_cmp_refl}
use kelinode_rs.BTreeMap.{get, insert, contains_key}
use kelinode_rs.BTreeMap.Laws.{get-insert}
use kelinode_rs.PortForward.{
  PortForwardMatcher, PortForwardRange, PortForwardRule, hysteria_port_forward_comment,
  port_forward_matchers_from_ranges,
}
use kelinode_rs.PortForward.Ranges.{covers, IsPortRange}
use kelinode_rs.PortForward.Matchers.{
  matches, decimal_without, matches-port_forward_matchers_from_ranges,
}
use kelinode_rs.PortForward.Args.{IsArgs, join-IsArgs, cut_at, port_forward_matchers-IsArgs}
use kelinode_rs.PortForward.Rules.{Building, allocate, push_matcher, push_matchers, forward_ranges}
use kelinode_rs.PortForward.Building.{claims, claims-extended}

abbrev pub udp : Text
udp = text "udp"

-- Some rule for UDP matches the port.
abbrev pub is_forwarded : ℕ → List PortForwardRule → Bool
is_forwarded port rules = any (λ r. text_eq r.protocol udp && matches port r.matcher) rules

abbrev key_of : PortForwardRule → Text
key_of r = decimal r.target_port ++ (b'|' ∷ join (0 ∷ []) r.matcher.args)

abbrev IsOurs : PortForwardRule → Type 0
IsOurs r = IsArgs r.matcher.args × (text_eq r.protocol udp ≡ true)

-- Each key in `seen` is that of a rule, and each claimed port is forwarded.
pub record IsComplete (b : Building) : Type 0 where
  pub ours : All IsOurs b.rules
  pub listed :
      (key : Text)
      → contains_key key b.seen ≡ true
      → any (λ r. text_eq (key_of r) key) b.rules ≡ true
  pub served :
      (port t : ℕ) → claims port udp t b.allocated ≡ true → is_forwarded port b.rules ≡ true

abbrev pub Grows : Building → Building → Type 0
Grows b b' = (port : ℕ) → is_forwarded port b.rules ≡ true → is_forwarded port b'.rules ≡ true

same_args :
    (target target' : ℕ) (xs ys : List Text)
    → IsArgs xs
    → IsArgs ys
    → decimal target ++ (b'|' ∷ join (0 ∷ []) xs) ≡ decimal target' ++ (b'|' ∷ join (0 ∷ []) ys)
    → xs ≡ ys
same_args target target' xs ys h k e =
    let bar : is_digit b'|' ≡ false = unfold is_digit in refl in
    join-IsArgs xs ys h k (
      cut_at b'|' (decimal target) (decimal target') (join (0 ∷ []) xs) (join (0 ∷ []) ys)
        (decimal_without b'|' target bar) (decimal_without b'|' target' bar) e)

right_of : (a b : Bool) → (a || b) ≡ true → a ≡ false → b ≡ true
right_of a b h k = ground arith

same_key-is_forwarded :
    (port target : ℕ) (m : PortForwardMatcher) (rules : List PortForwardRule)
    → IsArgs m.args
    → All IsOurs rules
    → any (λ r. text_eq (key_of r) (decimal target ++ (b'|' ∷ join (0 ∷ []) m.args))) rules ≡ true
    → matches port m ≡ true
    → is_forwarded port rules ≡ true
same_key-is_forwarded port target m [] a h k e = cc
same_key-is_forwarded port target m (r ∷ rules) a ((args, ours), h) k e =
    elim (Bool-cases (text_eq (key_of r) (decimal target ++ (b'|' ∷ join (0 ∷ []) m.args)))) [
      | inl same ↦
          let q =
            same_args r.target_port target r.matcher.args m.args args a
              ((text_eq_iff (key_of r) _).0 same) in
          rw (q, ours, e) refl
      | inr other ↦
          ground (arith, same_key-is_forwarded port target m rules a h (right_of _ _ k other) e)
    ]

get-insert_key :
    (j k : Text) (m : List (Text × Unit {0}))
    → get j (insert k tt m) ≡ (if text_eq j k then some tt else get j m)
get-insert_key j k m =
    get-insert j k tt m ∙ ground (arith, text_eq_iff j k, text_cmp_eq j k, text_cmp_refl j)

module _ (id target : ℕ) where
  abbrev push : Building → PortForwardMatcher → Building
  push = push_matcher id target udp hysteria_port_forward_comment []

  -- What a push leaves: rules and keys that fit, nothing lost, and the ports given forwarded.
  record Pushed (b : Building) (test : ℕ → Bool) (b' : Building) : Type 0 where
    ours : All IsOurs b'.rules
    listed :
        (key : Text)
        → contains_key key b'.seen ≡ true
        → any (λ r. text_eq (key_of r) key) b'.rules ≡ true
    allocated : b'.allocated ≡ b.allocated
    grows : Grows b b'
    forwards : (port : ℕ) → test port ≡ true → is_forwarded port b'.rules ≡ true

  push_matcher-Pushed :
      (b : Building) (m : PortForwardMatcher)
      → IsArgs m.args
      → All IsOurs b.rules
      → ((key : Text)
          → contains_key key b.seen ≡ true
          → any (λ r. text_eq (key_of r) key) b.rules ≡ true)
      → Pushed b (λ port. matches port m) (push b m)
  unfolding push_matcher
  push_matcher-Pushed b m a ours listed =
      let key = decimal target ++ (b'|' ∷ join (0 ∷ []) m.args) in
      let rule : PortForwardRule = record {
        matcher = m;
        target_port = target;
        protocol = udp;
        comment = hysteria_port_forward_comment;
      } in
      if_intro (Pushed b (λ port. matches port m)) (contains_key key b.seen)
        (λ seen. record {
          ours = ours;
          listed = listed;
          allocated = refl;
          grows = λ port h. h;
          forwards =
              λ port e. same_key-is_forwarded port target m b.rules a ours (listed key seen) e;
        })
        (λ fresh. record {
          ours = All-append IsOurs b.rules (rule ∷ []) ours ((a, (text_eq_iff udp udp).1 refl), tt);
          listed = λ k h. ground (
            arith,
            listed k,
            any-append (λ r. text_eq (key_of r) k) b.rules (rule ∷ []),
            get-insert_key k key b.seen,
            text_eq_iff key k,
            text_eq_iff k key,
          );
          allocated = refl;
          grows = λ port h. ground (
            arith,
            any-append (λ r. text_eq r.protocol udp && matches port r.matcher) b.rules (rule ∷ []),
          );
          forwards = λ port e. ground (
            arith,
            any-append (λ r. text_eq r.protocol udp && matches port r.matcher) b.rules (rule ∷ []),
            text_eq_iff udp udp,
          );
        })

  push_matchers-Pushed :
      (b : Building) (ms : List PortForwardMatcher)
      → All (λ m. IsArgs m.args) ms
      → All IsOurs b.rules
      → ((key : Text)
          → contains_key key b.seen ≡ true
          → any (λ r. text_eq (key_of r) key) b.rules ≡ true)
      → Pushed b
          (λ port. any (matches port) ms)
          (push_matchers id target udp hysteria_port_forward_comment [] b ms)
  unfolding push_matchers
  push_matchers-Pushed b [] a ours listed = record {
    ours = ours;
    listed = listed;
    allocated = refl;
    grows = λ port h. h;
    forwards = λ port h. cc;
  }
  push_matchers-Pushed b (m ∷ ms) (a, hs) ours listed =
      let first = push_matcher-Pushed b m a ours listed in
      let rest = push_matchers-Pushed (push b m) ms hs first.ours first.listed in
      record {
        ours = rest.ours;
        listed = rest.listed;
        allocated = rest.allocated ∙ first.allocated;
        grows = λ port h. rest.grows port (first.grows port h);
        forwards = λ port h. elim (Bool-cases (matches port m)) [
          | inl here ↦ rest.grows port (first.forwards port here)
          | inr later ↦ rest.forwards port (right_of _ _ h later)
        ];
      }

  claimed_or_covered :
      (old mine same new goal : Bool)
      → (old ≡ true → goal ≡ true)
      → (new ≡ true → goal ≡ true)
      → (old || (mine && (same && new))) ≡ true
      → goal ≡ true
  claimed_or_covered old mine same new goal f g h = ground (arith, f, g)

  -- What forwarding ranges leaves.
  pub record Forwarded (b : Building) (ranges : List PortForwardRange) (b' : Building)
      : Type 0 where
    pub complete : IsComplete b'
    pub grows : Grows b b'
    pub forwards : (port : ℕ) → covers port ranges ≡ true → is_forwarded port b'.rules ≡ true

  pub forward_ranges-Forwarded :
      (b : Building) (ranges : List PortForwardRange)
      → IsComplete b
      → All IsPortRange ranges
      → Forwarded b ranges (forward_ranges id target udp hysteria_port_forward_comment [] b ranges)
  unfolding forward_ranges
  forward_ranges-Forwarded b ranges inv valid =
      let ms = port_forward_matchers_from_ranges ranges in
      let started : Building = record b {
        allocated =
            b.allocated ++ map (allocate id target udp hysteria_port_forward_comment []) ranges;
      } in
      let p =
        push_matchers-Pushed started ms (port_forward_matchers-IsArgs ranges) inv.ours inv.listed in
      let forwards = λ (port : ℕ) (h : covers port ranges ≡ true).
        p.forwards port (matches-port_forward_matchers_from_ranges port ranges valid ∙ h) in
      record {
        complete = record {
          ours = p.ours;
          listed = p.listed;
          served = λ port t h.
              claimed_or_covered _ _ _ _ _ (λ c. p.grows port (inv.served port t c)) (forwards port)
                (sym (
                    claims-extended id target udp hysteria_port_forward_comment [] (λ _. []) b
                      ranges port udp t)
                  ∙ sym (ap (claims port udp t) p.allocated)
                  ∙ h);
        };
        grows = p.grows;
        forwards = forwards;
      }
