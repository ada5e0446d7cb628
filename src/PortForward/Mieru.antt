-- ===== src/PortForward/Mieru.antt =====
-- The promises of the Mieru rule builder of src/port_forward.rs, protocol by protocol.
use mathlib.Core.List.{Memᴰ}
use mathlib.Core.Path.{subst}
use kelinode_rs.Prelude.{
  ℕ, ◌<◌, Bool, true, not, ◌&&◌, ◌||◌, some, List, [], ◌∷◌, ◌++◌, ◌==◌, if◌then◌else◌, is_empty,
  ◌≡◌, ◌∙◌, arith, inl, inr, Bool-cases, if_intro,
}
use kelinode_rs.Prelude.Text.{Text, text_eq, text_eq_iff, trim}
use kelinode_rs.Prelude.Result.{Result, ok, err}
use kelinode_rs.Prelude.Order.{text_ord, nat_ord, text_cmp_eq, text_cmp_refl}
use kelinode_rs.BTreeMap.{BTreeMap, get, insert, keys, is_some}
use kelinode_rs.BTreeMap.Laws.{get-insert}
use kelinode_rs.Panel.{NodeInfo}
use kelinode_rs.PortForward.{mieru_port_forward_comment, first_non_empty}
use kelinode_rs.PortForward.Rules.{
  Building, nothing_built, fail, is_mieru, add_mieru_target, add_mieru_targets,
  mieru_port_forward_protocol, mieru_node, mieru_nodes, collect_mieru_target_ports_by_protocol,
  build_mieru_port_forward_rules, or_empty, forward_ports, invalid_transport,
}
use kelinode_rs.PortForward.Building.{IsBuilt}
use kelinode_rs.PortForward.Disjoint.{nothing_built-IsBuilt, fail-IsBuilt, forward_ports-IsBuilt}
use kelinode_rs.PortForward.Safety.{
  AreUnambiguous, IsUnforwarded, built-AreUnambiguous, built-IsUnforwarded, get-is_target,
}

abbrev Targets : Type 0
Targets = BTreeMap Text (BTreeMap ℕ ℕ)

module _ (target_ports : Targets) where
  abbrev mieru_targets : Text → List ℕ
  mieru_targets protocol = keys (or_empty (get protocol target_ports))

  mieru_node-IsBuilt :
      (b : Building) (info : NodeInfo)
      → IsBuilt mieru_targets b
      → IsBuilt mieru_targets (mieru_node target_ports b info)
  unfolding mieru_node
  mieru_node-IsBuilt b info inv =
      let Q = IsBuilt mieru_targets in
      let external_port = first_non_empty (trim info.common.ports) (trim info.common.port) in
      if_intro Q (not (is_mieru info.protocol)) (λ _. inv)
        λ _.
          if_intro Q (info.common.server_port == 0) (λ _. fail-IsBuilt mieru_targets b inv _)
            λ positive.
              if_intro Q (is_empty external_port) (λ _. inv)
                λ _.
                  transport_intro (mieru_port_forward_protocol info.common.transport) external_port
                    (ground arith)
    where
      transport_intro :
          (r : Result Text Text) (external_port : Text)
          → 0 < info.common.server_port
          → IsBuilt mieru_targets (elim r as (λ _. Building) [
            | err e ↦ fail (invalid_transport info.id e) b
            | ok protocol ↦
                forward_ports info protocol mieru_port_forward_comment
                  (protocol ++ (b'|' ∷ []))
                  (keys (or_empty (get protocol target_ports)))
                  external_port
                  b
          ])
      transport_intro (err e) external_port positive = fail-IsBuilt mieru_targets b inv _
      transport_intro (ok protocol) external_port positive =
          forward_ports-IsBuilt mieru_targets b inv info protocol mieru_port_forward_comment
            (protocol ++ (b'|' ∷ [])) positive external_port

  mieru_nodes-IsBuilt :
      (b : Building) (infos : List NodeInfo)
      → IsBuilt mieru_targets b
      → IsBuilt mieru_targets (mieru_nodes target_ports b infos)
  unfolding mieru_nodes
  mieru_nodes-IsBuilt b [] inv = inv
  mieru_nodes-IsBuilt b (info ∷ infos) inv =
      mieru_nodes-IsBuilt (mieru_node target_ports b info) infos (mieru_node-IsBuilt b info inv)

mieru-IsBuilt :
    (infos : List NodeInfo)
    → let ports = collect_mieru_target_ports_by_protocol infos in
      IsBuilt (mieru_targets ports) (mieru_nodes ports nothing_built infos)
mieru-IsBuilt infos =
    let ports = collect_mieru_target_ports_by_protocol infos in
    mieru_nodes-IsBuilt ports nothing_built infos (nothing_built-IsBuilt (mieru_targets ports))

-- For every list of nodes, two Mieru rules of one protocol that match one port have one target.
pub mieru_rules-AreUnambiguous :
    (infos : List NodeInfo) → AreUnambiguous (build_mieru_port_forward_rules infos).0
unfolding build_mieru_port_forward_rules
mieru_rules-AreUnambiguous infos =
    let ports = collect_mieru_target_ports_by_protocol infos in
    built-AreUnambiguous (mieru_targets ports) (mieru_nodes ports nothing_built infos)
      (mieru-IsBuilt infos)

abbrev holds : Text → ℕ → Targets → Bool
holds protocol port out = is_some (get port (or_empty (get protocol out)))

get-insert_text :
    {V : Type 0} (j k : Text) (v : V) (m : BTreeMap Text V)
    → get j (insert k v m) ≡ (if text_eq j k then some v else get j m)
get-insert_text j k v m =
    get-insert j k v m ∙ ground (arith, text_eq_iff j k, text_cmp_eq j k, text_cmp_refl j)

get-insert_nat :
    (j k v : ℕ) (m : BTreeMap ℕ ℕ) → get j (insert k v m) ≡ (if j == k then some v else get j m)
get-insert_nat j k v m = get-insert j k v m ∙ ground arith

holds-insert :
    (protocol protocol' : Text) (port port' id : ℕ) (out : Targets)
    → holds protocol port (insert protocol' (insert port' id (or_empty (get protocol' out))) out)
      ≡ (text_eq protocol protocol' && port == port' || holds protocol port out)
holds-insert protocol protocol' port port' id out = elim (Bool-cases (text_eq protocol protocol')) [
  | inl same ↦ ground (
    arith,
    get-insert_text protocol protocol' (insert port' id (or_empty (get protocol' out))) out,
    get-insert_nat port port' id (or_empty (get protocol' out)),
    text_eq_iff protocol protocol',
  )
  | inr other ↦ ground (
    arith,
    get-insert_text protocol protocol' (insert port' id (or_empty (get protocol' out))) out,
  )
]

holds-add_mieru_target :
    (protocol : Text) (port : ℕ) (out : Targets) (info : NodeInfo)
    → holds protocol port out ≡ true
    → holds protocol port (add_mieru_target out info) ≡ true
unfolding add_mieru_target
holds-add_mieru_target protocol port out info h =
    if_intro (λ o. holds protocol port o ≡ true)
      (not (is_mieru info.protocol) || info.common.server_port == 0) (λ _. h)
      (λ _. transport_intro (mieru_port_forward_protocol info.common.transport))
  where
    transport_intro :
        (r : Result Text Text)
        → holds protocol port (elim r as (λ _. Targets) [
          | err _ ↦ out
          | ok p ↦ insert p (insert info.common.server_port info.id (or_empty (get p out))) out
        ])
          ≡ true
    transport_intro (err _) = h
    transport_intro (ok p) =
        holds-insert protocol p port info.common.server_port info.id out ∙ ground arith

holds-add_mieru_targets :
    (protocol : Text) (port : ℕ) (out : Targets) (infos : List NodeInfo)
    → holds protocol port out ≡ true
    → holds protocol port (add_mieru_targets out infos) ≡ true
unfolding add_mieru_targets
holds-add_mieru_targets protocol port out [] h = h
holds-add_mieru_targets protocol port out (info ∷ infos) h =
    holds-add_mieru_targets protocol port (add_mieru_target out info) infos
      (holds-add_mieru_target protocol port out info h)

holds_own :
    (protocol : Text) (out : Targets) (info : NodeInfo)
    → is_mieru info.protocol ≡ true
    → 0 < info.common.server_port
    → mieru_port_forward_protocol info.common.transport ≡ ok protocol
    → holds protocol info.common.server_port (add_mieru_target out info) ≡ true
unfolding add_mieru_target
holds_own protocol out info h positive e = ground (
  arith,
  holds-insert protocol protocol info.common.server_port info.common.server_port info.id out,
  text_eq_iff protocol protocol,
)

holds_listed :
    (protocol : Text) (out : Targets) (info : NodeInfo) (infos : List NodeInfo)
    → Memᴰ info infos
    → is_mieru info.protocol ≡ true
    → 0 < info.common.server_port
    → mieru_port_forward_protocol info.common.transport ≡ ok protocol
    → holds protocol info.common.server_port (add_mieru_targets out infos) ≡ true
unfolding add_mieru_targets
holds_listed protocol out info [] m h positive e = elim m [ ]
holds_listed protocol out info (i ∷ infos) (Memᴰ.head q) h positive e =
    holds-add_mieru_targets protocol info.common.server_port (add_mieru_target out i) infos (
      subst (λ x. holds protocol info.common.server_port (add_mieru_target out x) ≡ true) q
        (holds_own protocol out info h positive e))
holds_listed protocol out info (i ∷ infos) (Memᴰ.tail m) h positive e =
    holds_listed protocol (add_mieru_target out i) info infos m h positive e

-- For every list of nodes, no Mieru rule of a protocol matches the positive server port of a Mieru
-- node of the list whose transport is that protocol.
pub mieru_rules-IsUnforwarded :
    (infos : List NodeInfo) (info : NodeInfo) (protocol : Text)
    → Memᴰ info infos
    → is_mieru info.protocol ≡ true
    → 0 < info.common.server_port
    → mieru_port_forward_protocol info.common.transport ≡ ok protocol
    → IsUnforwarded protocol info.common.server_port (build_mieru_port_forward_rules infos).0
unfolding build_mieru_port_forward_rules collect_mieru_target_ports_by_protocol
mieru_rules-IsUnforwarded infos info protocol m h positive e =
    let ports = collect_mieru_target_ports_by_protocol infos in
    built-IsUnforwarded (mieru_targets ports) (mieru_nodes ports nothing_built infos)
      (mieru-IsBuilt infos) protocol info.common.server_port
      (get-is_target info.common.server_port _ (holds_listed protocol [] info infos m h positive e))

-- For every list of nodes, two Mieru rules of one protocol that match one port have one target, and
-- no Mieru rule of a protocol matches the positive server port of a Mieru node of the list whose
-- transport is that protocol.
pub mieru_rules-AreSafe :
    (infos : List NodeInfo) (info : NodeInfo) (protocol : Text)
    → Memᴰ info infos
    → is_mieru info.protocol ≡ true
    → 0 < info.common.server_port
    → mieru_port_forward_protocol info.common.transport ≡ ok protocol
    → AreUnambiguous (build_mieru_port_forward_rules infos).0
      × IsUnforwarded protocol info.common.server_port (build_mieru_port_forward_rules infos).0
mieru_rules-AreSafe infos info protocol m h positive e =
    (mieru_rules-AreUnambiguous infos, mieru_rules-IsUnforwarded infos info protocol m h positive e)
