-- ===== src/PortForward/Safety.antt =====
-- The promises of the two rule builders of src/port_forward.rs, for every list of nodes.
use mathlib.Core.Path.{subst}
use kelinode_rs.Prelude.{
  ℕ, ◌<◌, Bool, true, false, not, ◌&&◌, ◌||◌, Option, none, List, [], ◌∷◌, map, ltb, ◌==◌, is_empty,
  ◌≡◌, refl, sym, ap, ◌∙◌, arith, All, any, inl, inr, Bool-cases, if_intro, keep,
}
use mathlib.Core.List.{Memᴰ}
use kelinode_rs.Prelude.Text.{Text, text, text_eq, text_eq_iff, trim}
use kelinode_rs.Prelude.Order.{text_ord, nat_ord}
use kelinode_rs.BTreeMap.{BTreeMap, get, keys, is_some}
use kelinode_rs.BTreeMap.Extension.{get-collect, last_of}
use kelinode_rs.Panel.{NodeInfo}
use kelinode_rs.PortForward.{PortForwardRule, hysteria_port_forward_comment, first_non_empty}
use kelinode_rs.PortForward.Matchers.{matches}
use kelinode_rs.PortForward.Rules.{
  Building, nothing_built, is_hysteria2, hysteria_node, hysteria_nodes, server_port_of,
  collect_hysteria_target_ports, build_hysteria_port_forward_rules,
}
use kelinode_rs.PortForward.Building.{IsBuilt, is_target, claims}
use kelinode_rs.PortForward.Disjoint.{nothing_built-IsBuilt, fail-IsBuilt, forward_ports-IsBuilt}

-- Rules that match one port of one protocol have one target.
abbrev pub AreUnambiguous : List PortForwardRule → Type 0
AreUnambiguous rules =
    All
      (λ r.
        All
          (λ s.
            (port : ℕ)
            → matches port r.matcher ≡ true
            → matches port s.matcher ≡ true
            → text_eq r.protocol s.protocol ≡ true
            → r.target_port ≡ s.target_port)
          rules)
      rules

-- No rule of the protocol matches the port.
abbrev pub IsUnforwarded : Text → ℕ → List PortForwardRule → Type 0
IsUnforwarded protocol port rules =
    All (λ r. text_eq r.protocol protocol ≡ true → matches port r.matcher ≡ false) rules

All-map :
    {A : Type 0} (P Q : A → Type 0) (xs : List A) → ((x : A) → P x → Q x) → All P xs → All Q xs
All-map P Q [] f h = tt
All-map P Q (x ∷ xs) f (h, hs) = (f x h, All-map P Q xs f hs)

module _ (targets : Text → List ℕ) (b : Building) (inv : IsBuilt targets b) where
  pub built-AreUnambiguous : AreUnambiguous b.rules
  built-AreUnambiguous =
      All-map _ _ b.rules
        (λ r h.
          All-map _ _ b.rules
            (λ s k port p q same.
              inv.unique port r.protocol r.target_port s.target_port (h port p) (
                subst (λ x. claims port x s.target_port b.allocated ≡ true)
                  (sym ((text_eq_iff r.protocol s.protocol).0 same)) (k port q)))
            inv.backed)
        inv.backed

  pub built-IsUnforwarded :
      (protocol : Text) (port : ℕ)
      → is_target port (targets protocol) ≡ true
      → IsUnforwarded protocol port b.rules
  built-IsUnforwarded protocol port h =
      All-map _ _ b.rules
        (λ r k same. elim (Bool-cases (matches port r.matcher)) [
          | inl e ↦ cc (
            inv.clear port r.protocol r.target_port (k port e),
            h,
            (text_eq_iff r.protocol protocol).0 same,
          )
          | inr e ↦ e
        ])
        inv.backed

-- Hysteria2.
module _ (target_ports : BTreeMap ℕ ℕ) where
  abbrev hysteria_targets : Text → List ℕ
  hysteria_targets protocol = keys target_ports

  hysteria_node-IsBuilt :
      (b : Building) (info : NodeInfo)
      → IsBuilt hysteria_targets b
      → IsBuilt hysteria_targets (hysteria_node target_ports b info)
  unfolding hysteria_node
  hysteria_node-IsBuilt b info inv =
      let Q = IsBuilt hysteria_targets in
      let external_port = first_non_empty (trim info.common.port) (trim info.common.ports) in
      if_intro Q (not (is_hysteria2 info.protocol)) (λ _. inv)
        λ _.
          if_intro Q (info.common.server_port == 0) (λ _. fail-IsBuilt hysteria_targets b inv _)
            λ positive.
              if_intro Q (is_empty external_port) (λ _. inv)
                λ _.
                  forward_ports-IsBuilt hysteria_targets b inv info (text "udp")
                    hysteria_port_forward_comment [] (ground arith) external_port

  hysteria_nodes-IsBuilt :
      (b : Building) (infos : List NodeInfo)
      → IsBuilt hysteria_targets b
      → IsBuilt hysteria_targets (hysteria_nodes target_ports b infos)
  unfolding hysteria_nodes
  hysteria_nodes-IsBuilt b [] inv = inv
  hysteria_nodes-IsBuilt b (info ∷ infos) inv =
      hysteria_nodes-IsBuilt (hysteria_node target_ports b info) infos
        (hysteria_node-IsBuilt b info inv)

hysteria-IsBuilt :
    (infos : List NodeInfo)
    → let ports = collect_hysteria_target_ports infos in
      IsBuilt (hysteria_targets ports) (hysteria_nodes ports nothing_built infos)
hysteria-IsBuilt infos =
    let ports = collect_hysteria_target_ports infos in
    hysteria_nodes-IsBuilt ports nothing_built infos
      (nothing_built-IsBuilt (hysteria_targets ports))

-- For every list of nodes, two Hysteria2 rules of one protocol that match one port have one target.
pub hysteria_rules-AreUnambiguous :
    (infos : List NodeInfo) → AreUnambiguous (build_hysteria_port_forward_rules infos).0
unfolding build_hysteria_port_forward_rules
hysteria_rules-AreUnambiguous infos =
    let ports = collect_hysteria_target_ports infos in
    built-AreUnambiguous (hysteria_targets ports) (hysteria_nodes ports nothing_built infos)
      (hysteria-IsBuilt infos)

pub get-is_target :
    (port : ℕ) (m : BTreeMap ℕ ℕ) → is_some (get port m) ≡ true → is_target port (keys m) ≡ true
unfolding get
get-is_target port [] h = cc
get-is_target port ((j, w) ∷ m) h = ground (arith, get-is_target port m)

last_of-listed :
    (port : ℕ) (kvs : List (ℕ × ℕ)) (found : Option ℕ)
    → is_some (last_of port kvs found) ≡ (any (λ kv. kv.0 == port) kvs || is_some found)
last_of-listed port [] found = refl
last_of-listed port ((j, v) ∷ kvs) found = last_of-listed port kvs _ ∙ ground arith

any-map :
    {A B : Type 0} (q : B → Bool) (f : A → B) (xs : List A)
    → any q (map f xs) ≡ any (λ x. q (f x)) xs
any-map q f [] = refl
any-map q f (x ∷ xs) = ap (λ b. q (f x) || b) (any-map q f xs)

any-keep :
    {A : Type 0} (q p : A → Bool) (xs : List A) → any q (keep p xs) ≡ any (λ x. p x && q x) xs
any-keep q p [] = refl
any-keep q p (x ∷ xs) = ground (arith, any-keep q p xs)

any_of_mem :
    {A : Type 0} (p : A → Bool) (x : A) (xs : List A) → Memᴰ x xs → p x ≡ true → any p xs ≡ true
any_of_mem p x [] m h = elim m [ ]
any_of_mem p x (y ∷ ys) (Memᴰ.head e) h = rw (ap p (sym e) ∙ h)
any_of_mem p x (y ∷ ys) (Memᴰ.tail m) h = ground (arith, any_of_mem p x ys m h)

hysteria_target_listed :
    (info : NodeInfo) (infos : List NodeInfo)
    → Memᴰ info infos
    → is_hysteria2 info.protocol ≡ true
    → 0 < info.common.server_port
    → is_target info.common.server_port (keys (collect_hysteria_target_ports infos)) ≡ true
unfolding collect_hysteria_target_ports
hysteria_target_listed info infos m h positive =
    let port = info.common.server_port in
    let usable = λ (i : NodeInfo). ltb 0 i.common.server_port in
    let hysteria = λ (i : NodeInfo). is_hysteria2 i.protocol in
    let kept = keep usable (keep hysteria infos) in
    get-is_target port _ (
      ap is_some (get-collect port (map server_port_of kept))
      ∙ last_of-listed port (map server_port_of kept) none
      ∙ ap (λ b. b || false)
          (any-map (λ kv. kv.0 == port) server_port_of kept
            ∙ any-keep (λ i. i.common.server_port == port) usable (keep hysteria infos)
            ∙ any-keep (λ i. usable i && i.common.server_port == port) hysteria infos
            ∙ any_of_mem (λ i. hysteria i && (usable i && i.common.server_port == port)) info infos
                m (ground arith)))

-- For every list of nodes, no Hysteria2 rule for UDP matches the positive server port of a
-- Hysteria2 node of the list.
pub hysteria_rules-IsUnforwarded :
    (infos : List NodeInfo) (info : NodeInfo)
    → Memᴰ info infos
    → is_hysteria2 info.protocol ≡ true
    → 0 < info.common.server_port
    → IsUnforwarded (text "udp") info.common.server_port (build_hysteria_port_forward_rules infos).0
unfolding build_hysteria_port_forward_rules
hysteria_rules-IsUnforwarded infos info m h positive =
    let ports = collect_hysteria_target_ports infos in
    built-IsUnforwarded (hysteria_targets ports) (hysteria_nodes ports nothing_built infos)
      (hysteria-IsBuilt infos) (text "udp") info.common.server_port
      (hysteria_target_listed info infos m h positive)
