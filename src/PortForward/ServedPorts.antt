-- ===== src/PortForward/ServedPorts.antt =====
-- What src/port_forward.rs forwards of the text of the ports of one node, by the rules of that node or
-- of an earlier one.
use kelinode_rs.Prelude.{
  ℕ, Bool, true, false, not, ◌&&◌, List, [], ◌∷◌, if◌then◌else◌, is_empty, ◌≡◌, ap, ◌∙◌, arith, All,
  inl, inr, Bool-cases, if_intro,
}
use mathlib.Core.Path.{subst}
use kelinode_rs.Prelude.Text.{Text, text_eq}
use kelinode_rs.Prelude.Result.{Result, ok, err, Ensures}
use kelinode_rs.Prelude.Order.{text_ord, nat_ord}
use kelinode_rs.Panel.{NodeInfo}
use kelinode_rs.PortForward.{
  PortForwardMatcher, PortForwardRange, AllocatedPortForwardRange, hysteria_port_forward_comment,
  trim_target_port_conflicts, trim_allocated_range_conflicts,
}
use kelinode_rs.PortForward.Ranges.{
  in_range, covers, IsPortRange, foreign, taken, trim_target-IsPortRange,
  covers-trim_target_port_conflicts, trim_allocated-IsPortRange,
  covers-trim_allocated_range_conflicts,
}
use kelinode_rs.PortForward.Parse.{PortError, parse_port_forward_matchers_and_ranges_except}
use kelinode_rs.PortForward.Parsed.{IsAccepted, parse-IsAccepted}
use kelinode_rs.PortForward.Rules.{
  Building, ForwardError, fail, invalid_port_list, fully_covered, forward_ranges, forward_ports,
}
use kelinode_rs.PortForward.Building.{claims}
use kelinode_rs.PortForward.Complete.{
  udp, is_forwarded, IsComplete, Grows, Forwarded, forward_ranges-Forwarded,
}

abbrev pub Keeps : Building → Building → Type 0
Keeps b b' = IsComplete b' × Grows b b'

pub same-Keeps : (b : Building) → IsComplete b → Keeps b b
same-Keeps b inv = (inv, λ port h. h)

pub fail-Keeps : (e : ForwardError) (b : Building) → IsComplete b → Keeps b (fail e b)
fail-Keeps e b inv =
    (record { ours = inv.ours; listed = inv.listed; served = inv.served }, λ port h. h)

-- A port taken by an earlier node is claimed for some target.
taken-claims :
    (port target : ℕ) (allocated : List AllocatedPortForwardRange) (goal : Bool)
    → ((t : ℕ) → claims port udp t allocated ≡ true → goal ≡ true)
    → taken port target udp allocated ≡ true
    → goal ≡ true
taken-claims port target [] goal f h = cc
taken-claims port target (a ∷ allocated) goal f h =
    elim (Bool-cases (text_eq a.protocol udp && in_range port a.range)) [
      | inl here ↦ f a.target_port (ground (arith, here))
      | inr later ↦
          taken-claims port target allocated goal (λ t c. f t (ground (arith, c)))
            (ground (arith, later))
    ]

module _ (info : NodeInfo) (targets : List ℕ) (b : Building) (inv : IsComplete b) where
  abbrev target : ℕ
  target = info.common.server_port

  abbrev left : List PortForwardRange → List PortForwardRange
  left ranges =
      trim_allocated_range_conflicts (trim_target_port_conflicts ranges target targets) target udp
        b.allocated

  left-IsPortRange :
      (ranges : List PortForwardRange) → All IsPortRange ranges → All IsPortRange (left ranges)
  left-IsPortRange ranges h =
      trim_allocated-IsPortRange _ target udp b.allocated
        (trim_target-IsPortRange ranges target targets h)

  covers-left :
      (port : ℕ) (ranges : List PortForwardRange)
      → All IsPortRange ranges
      → covers port (left ranges) ≡ (
          (covers port ranges && not (foreign port target targets))
          && not (taken port target udp b.allocated))
  covers-left port ranges h =
      covers-trim_allocated_range_conflicts port (trim_target_port_conflicts ranges target targets)
        target udp b.allocated (trim_target-IsPortRange ranges target targets h)
      ∙ ap (λ x. x && not (taken port target udp b.allocated))
          (covers-trim_target_port_conflicts port ranges target targets h)

  forwarded :
      (ranges : List PortForwardRange)
      → All IsPortRange ranges
      → Forwarded info.id target b
          (left ranges)
          (forward_ranges info.id target udp hysteria_port_forward_comment [] b (left ranges))
  forwarded ranges h =
      forward_ranges-Forwarded info.id target b (left ranges) inv (left-IsPortRange ranges h)

  abbrev ports_after :
      Text → Result PortError (List PortForwardMatcher × List PortForwardRange) → Building
  ports_after external_port r = elim r as (λ _. Building) [
    | err e ↦ fail (invalid_port_list info.id external_port e) b
    | ok (_, ranges) ↦
        if is_empty ranges
        then b
        else if is_empty (left ranges)
        then fail (fully_covered info.id external_port) b
        else forward_ranges info.id target udp hysteria_port_forward_comment [] b (left ranges)
  ]

  ports_after-Keeps :
      (external_port : Text)
      (r : Result PortError (List PortForwardMatcher × List PortForwardRange))
      → Ensures (IsAccepted target) r
      → Keeps b (ports_after external_port r)
  ports_after-Keeps external_port (err e) h = fail-Keeps _ b inv
  ports_after-Keeps external_port (ok (ms, ranges)) h =
      if_intro (Keeps b) (is_empty ranges) (λ _. same-Keeps b inv)
        λ _.
          if_intro (Keeps b) (is_empty (left ranges)) (λ _. fail-Keeps _ b inv)
            λ _. ((forwarded ranges h.valid).complete, (forwarded ranges h.valid).grows)

  ports_after_forwards :
      (external_port : Text) (ms : List PortForwardMatcher) (ranges : List PortForwardRange)
      → IsAccepted target (ms, ranges)
      → (port : ℕ) → covers port ranges ≡ true
      → foreign port target targets ≡ false
      → is_forwarded port (ports_after external_port (ok (ms, ranges))).rules ≡ true
  ports_after_forwards external_port ms ranges h port c f =
      elim (Bool-cases (taken port target udp b.allocated)) [
        | inl yes' ↦
            (ports_after-Keeps external_port (ok (ms, ranges)) h).1 port
              (taken-claims port target b.allocated _ (inv.served port) yes')
        | inr fresh ↦
            let stays : covers port (left ranges) ≡ true =
              ground (arith, covers-left port ranges h.valid) in
            let Q = λ (x : Building). is_forwarded port x.rules ≡ true in
            if_intro Q (is_empty ranges) (λ e. no_port port ranges e c)
              λ _.
                if_intro Q (is_empty (left ranges)) (λ e. no_port port (left ranges) e stays)
                  λ _. (forwarded ranges h.valid).forwards port stays
      ]
    where
      no_port :
          {G : Type 0} (port : ℕ) (rs : List PortForwardRange)
          → is_empty rs ≡ true
          → covers port rs ≡ true
          → G
      no_port port [] e c = cc
      no_port port (r ∷ rs) e c = cc

  pub forward_ports-Keeps :
      (external_port : Text)
      → Keeps b (forward_ports info udp hysteria_port_forward_comment [] targets external_port b)
  unfolding forward_ports
  forward_ports-Keeps external_port =
      ports_after-Keeps external_port
        (parse_port_forward_matchers_and_ranges_except external_port target)
        (parse-IsAccepted external_port target)

  pub forward_ports_forwards :
      (external_port : Text) (ms : List PortForwardMatcher) (ranges : List PortForwardRange)
      → parse_port_forward_matchers_and_ranges_except external_port target ≡ ok (ms, ranges)
      → (port : ℕ) → covers port ranges ≡ true
      → foreign port target targets ≡ false
      → is_forwarded port
          (forward_ports info udp hysteria_port_forward_comment [] targets external_port b).rules
        ≡ true
  unfolding forward_ports
  forward_ports_forwards external_port ms ranges e port c f =
      ap (λ r. is_forwarded port (ports_after external_port r).rules) e
      ∙ ports_after_forwards external_port ms ranges
          (subst (Ensures (IsAccepted target)) e (parse-IsAccepted external_port target)) port c f
