-- ===== src/PortForward/Disjoint.antt =====
-- What the rules that src/port_forward.rs builds promise together: no port of a protocol is
-- redirected to two targets, and no server port of the protocol's nodes is redirected at all.
use kelinode_rs.Prelude.{
  ℕ, ◌<◌, true, false, List, [], ◌∷◌, ◌==◌, if◌then◌else◌, is_empty, ◌≡◌, refl, sym, ◌∙◌, arith,
  All, inl, inr, Bool-cases, ==_iff, and_not_parts, if_intro,
}
use kelinode_rs.Prelude.Text.{Text}
use kelinode_rs.Prelude.Result.{Ensures, Result, ok, err}
use kelinode_rs.Prelude.Order.{text_ord}
use kelinode_rs.Panel.{NodeInfo}
use kelinode_rs.PortForward.{
  PortForwardMatcher, PortForwardRange, trim_target_port_conflicts, trim_allocated_range_conflicts,
}
use kelinode_rs.PortForward.Ranges.{
  covers, IsPortRange, foreign, trim_target-IsPortRange, covers-trim_target_port_conflicts,
  trim_allocated-IsPortRange, covers-trim_allocated_range_conflicts,
}
use kelinode_rs.PortForward.Parse.{PortError, parse_port_forward_matchers_and_ranges_except}
use kelinode_rs.PortForward.Parsed.{IsAccepted, parse-IsAccepted}
use kelinode_rs.PortForward.Rules.{
  Building, ForwardError, nothing_built, fail, forward_ranges, forward_ports, invalid_port_list,
  fully_covered,
}
use kelinode_rs.PortForward.Building.{IsBuilt, is_target, IsFree, forward_ranges-IsBuilt}

pub nothing_built-IsBuilt : (targets : Text → List ℕ) → IsBuilt targets nothing_built
nothing_built-IsBuilt targets = record {
  unique = λ port protocol t t' h k. cc;
  clear = λ port protocol t h. cc;
  backed = tt;
}

not_own_not_foreign :
    (port target : ℕ) (ports : List ℕ)
    → (port == target) ≡ false
    → foreign port target ports ≡ false
    → is_target port ports ≡ false
not_own_not_foreign port target [] h f = refl
not_own_not_foreign port target (p ∷ ports) h f =
    ground (arith, not_own_not_foreign port target ports h)

covered_is_other :
    (port target : ℕ) (ranges : List PortForwardRange)
    → covers port ranges ≡ true
    → covers target ranges ≡ false
    → (port == target) ≡ false
covered_is_other port target ranges covered own = elim (Bool-cases (port == target)) [
  | inl same ↦ cc (covered, own, (==_iff port target).0 same)
  | inr differs ↦ differs
]

module _ (targets : Text → List ℕ) (b : Building) (inv : IsBuilt targets b) where
  pub fail-IsBuilt : (e : ForwardError) → IsBuilt targets (fail e b)
  fail-IsBuilt e = record { unique = inv.unique; clear = inv.clear; backed = inv.backed }

  module _ (info : NodeInfo) (protocol comment prefix : Text)
      (positive : 0 < info.common.server_port) where
    abbrev trimmed : List PortForwardRange → List PortForwardRange
    trimmed ranges =
        trim_allocated_range_conflicts
          (trim_target_port_conflicts ranges info.common.server_port (targets protocol))
          info.common.server_port protocol b.allocated

    trimmed-IsPortRange :
        (ranges : List PortForwardRange) → All IsPortRange ranges → All IsPortRange (trimmed ranges)
    trimmed-IsPortRange ranges h =
        trim_allocated-IsPortRange _ info.common.server_port protocol b.allocated
          (trim_target-IsPortRange ranges info.common.server_port (targets protocol) h)

    trimmed-IsFree :
        (ranges : List PortForwardRange)
        → All IsPortRange ranges
        → covers info.common.server_port ranges ≡ false
        → IsFree info.id info.common.server_port protocol comment prefix targets b (trimmed ranges)
    trimmed-IsFree ranges h own port c =
        let target = info.common.server_port in
        let first = trim_target_port_conflicts ranges target (targets protocol) in
        let p =
          covers-trim_allocated_range_conflicts port first target protocol b.allocated
            (trim_target-IsPortRange ranges target (targets protocol) h) in
        let q = covers-trim_target_port_conflicts port ranges target (targets protocol) h in
        let (left, free) = and_not_parts (covers port first) _ (sym p ∙ c) in
        let (covered, clear) = and_not_parts (covers port ranges) _ (sym q ∙ left) in
        (
          free,
          not_own_not_foreign port target (targets protocol)
              (covered_is_other port target ranges covered own) clear,
        )

    pub forward_ports-IsBuilt :
        (external_port : Text)
        → IsBuilt targets
            (forward_ports info protocol comment prefix (targets protocol) external_port b)
    unfolding forward_ports
    forward_ports-IsBuilt external_port =
        result_intro
          (parse_port_forward_matchers_and_ranges_except external_port info.common.server_port)
          (parse-IsAccepted external_port info.common.server_port)
      where
        result_intro :
            (r : Result PortError (List PortForwardMatcher × List PortForwardRange))
            → Ensures (IsAccepted info.common.server_port) r
            → IsBuilt targets (elim r as (λ _. Building) [
              | err e ↦ fail (invalid_port_list info.id external_port e) b
              | ok (_, ranges) ↦
                  if is_empty ranges
                  then b
                  else if is_empty (trimmed ranges)
                  then fail (fully_covered info.id external_port) b
                  else forward_ranges info.id info.common.server_port protocol comment prefix b
                      (trimmed ranges)
            ])
        result_intro (err e) h = fail-IsBuilt _
        result_intro (ok (ms, ranges)) h =
            if_intro (IsBuilt targets) (is_empty ranges) (λ _. inv)
              λ _.
                if_intro (IsBuilt targets) (is_empty (trimmed ranges)) (λ _. fail-IsBuilt _)
                  λ _.
                    forward_ranges-IsBuilt info.id info.common.server_port protocol comment prefix
                      targets b (trimmed ranges)
                      (trimmed-IsFree ranges h.valid (h.excluded positive)) inv
                      (trimmed-IsPortRange ranges h.valid)
