-- ===== src/PortForward/Ranges.antt =====
-- Which ports the ranges of src/port_forward.rs cover, and what subtraction leaves of them.
use kelinode_rs.Prelude.{
  ℕ, ◌≤◌, Bool, not, ◌&&◌, ◌||◌, List, [], ◌∷◌, leb, ◌==◌, ◌≡◌, refl, ◌∙◌, arith, All, any,
  any-append, All-append, Bool-cases, inl, inr,
}
use kelinode_rs.Prelude.Text.{Text, text_eq}
use kelinode_rs.PortForward.{
  PortForwardRange, AllocatedPortForwardRange, u16_max, subtract_one, subtract_range,
  trim_target_port_conflicts, trim_allocated_range_conflicts,
}

abbrev pub in_range : ℕ → PortForwardRange → Bool
in_range port r = leb r.start port && leb port r.end

abbrev pub covers : ℕ → List PortForwardRange → Bool
covers port ranges = any (in_range port) ranges

-- A range of ports as the parser makes it.
abbrev pub IsPortRange : PortForwardRange → Type 0
IsPortRange r = (1 ≤ r.start) × (r.start ≤ r.end) × (r.end ≤ u16_max)

covers-subtract_one :
    (port : ℕ) (r blocked : PortForwardRange)
    → r.end ≤ u16_max
    → covers port (subtract_one r blocked) ≡ (in_range port r && not (in_range port blocked))
unfolding subtract_one
covers-subtract_one port r blocked h = ground arith

subtract_one-IsPortRange :
    (r blocked : PortForwardRange) → IsPortRange r → All IsPortRange (subtract_one r blocked)
unfolding subtract_one
subtract_one-IsPortRange r blocked h = ground arith

pub subtract_range-IsPortRange :
    (rs : List PortForwardRange) (blocked : PortForwardRange)
    → All IsPortRange rs
    → All IsPortRange (subtract_range rs blocked)
unfolding subtract_range
subtract_range-IsPortRange [] blocked h = tt
subtract_range-IsPortRange (r ∷ rs) blocked (h, hs) =
    All-append IsPortRange (subtract_one r blocked) (subtract_range rs blocked)
      (subtract_one-IsPortRange r blocked h) (subtract_range-IsPortRange rs blocked hs)

-- Of ranges within the ports, subtraction leaves the ports that they cover outside the range
-- subtracted, and no others.
pub covers-subtract_range :
    (port : ℕ) (rs : List PortForwardRange) (blocked : PortForwardRange)
    → All IsPortRange rs
    → covers port (subtract_range rs blocked) ≡ (covers port rs && not (in_range port blocked))
unfolding subtract_range
covers-subtract_range port [] blocked h = refl
covers-subtract_range port (r ∷ rs) blocked (h, hs) =
    any-append (in_range port) (subtract_one r blocked) (subtract_range rs blocked)
    ∙ ground
        (arith, covers-subtract_one port r blocked h.2, covers-subtract_range port rs blocked hs)

-- Another node's server port.
abbrev pub foreign : ℕ → ℕ → List ℕ → Bool
foreign port target_port ports = any (λ p. p == port && not (p == target_port)) ports

pub trim_target-IsPortRange :
    (rs : List PortForwardRange) (target_port : ℕ) (ports : List ℕ)
    → All IsPortRange rs
    → All IsPortRange (trim_target_port_conflicts rs target_port ports)
unfolding trim_target_port_conflicts
trim_target-IsPortRange rs target_port [] h = h
trim_target-IsPortRange rs target_port (p ∷ ports) h = elim (Bool-cases (p == target_port)) [
  | inl own ↦ rw (own, trim_target_port_conflicts) (trim_target-IsPortRange rs target_port ports h)
  | inr other ↦
      rw (other, trim_target_port_conflicts)
        (trim_target-IsPortRange (subtract_range rs (record { start = p; end = p })) target_port
          ports (subtract_range-IsPortRange rs (record { start = p; end = p }) h))
]

-- Of ranges within the ports, the ports left are those that they cover and that are no other
-- node's server port.
pub covers-trim_target_port_conflicts :
    (port : ℕ) (rs : List PortForwardRange) (target_port : ℕ) (ports : List ℕ)
    → All IsPortRange rs
    → covers port (trim_target_port_conflicts rs target_port ports)
      ≡ (covers port rs && not (foreign port target_port ports))
unfolding trim_target_port_conflicts
covers-trim_target_port_conflicts port rs target_port [] h = ground arith
covers-trim_target_port_conflicts port rs target_port (p ∷ ports) h =
    elim (Bool-cases (p == target_port)) [
      | inl own ↦
          rw (own, trim_target_port_conflicts)
            (covers-trim_target_port_conflicts port rs target_port ports h ∙ ground arith)
      | inr other ↦
          let single : PortForwardRange = record { start = p; end = p } in
          rw (other, trim_target_port_conflicts)
            (covers-trim_target_port_conflicts port (subtract_range rs single) target_port ports
                (subtract_range-IsPortRange rs single h)
              ∙ ground (arith, covers-subtract_range port rs single h))
    ]

-- A port that an earlier node of the protocol forwards elsewhere.
abbrev pub taken : ℕ → ℕ → Text → List AllocatedPortForwardRange → Bool
taken port target_port protocol allocated =
    any
      (λ a.
        not (a.target_port == target_port)
        && (text_eq a.protocol protocol && in_range port a.range))
      allocated

pub trim_allocated-IsPortRange :
    (rs : List PortForwardRange) (target_port : ℕ) (protocol : Text)
    (allocated : List AllocatedPortForwardRange)
    → All IsPortRange rs
    → All IsPortRange (trim_allocated_range_conflicts rs target_port protocol allocated)
unfolding trim_allocated_range_conflicts
trim_allocated-IsPortRange rs target_port protocol [] h = h
trim_allocated-IsPortRange rs target_port protocol (a ∷ allocated) h =
    elim (Bool-cases (a.target_port == target_port || not (text_eq a.protocol protocol))) [
      | inl free ↦
          rw (free, trim_allocated_range_conflicts)
            (trim_allocated-IsPortRange rs target_port protocol allocated h)
      | inr other ↦
          rw (other, trim_allocated_range_conflicts)
            (trim_allocated-IsPortRange (subtract_range rs a.range) target_port protocol allocated
              (subtract_range-IsPortRange rs a.range h))
    ]

-- Of ranges within the ports, the ports left are those that they cover and that no earlier node of
-- the protocol forwards to another target.
pub covers-trim_allocated_range_conflicts :
    (port : ℕ) (rs : List PortForwardRange) (target_port : ℕ) (protocol : Text)
    (allocated : List AllocatedPortForwardRange)
    → All IsPortRange rs
    → covers port (trim_allocated_range_conflicts rs target_port protocol allocated)
      ≡ (covers port rs && not (taken port target_port protocol allocated))
unfolding trim_allocated_range_conflicts
covers-trim_allocated_range_conflicts port rs target_port protocol [] h = ground arith
covers-trim_allocated_range_conflicts port rs target_port protocol (a ∷ allocated) h =
    elim (Bool-cases (a.target_port == target_port || not (text_eq a.protocol protocol))) [
      | inl free ↦
          rw (free, trim_allocated_range_conflicts)
            (covers-trim_allocated_range_conflicts port rs target_port protocol allocated h
              ∙ ground arith)
      | inr other ↦
          rw (other, trim_allocated_range_conflicts)
            (covers-trim_allocated_range_conflicts port (subtract_range rs a.range) target_port
                protocol allocated (subtract_range-IsPortRange rs a.range h)
              ∙ ground (arith, covers-subtract_range port rs a.range h))
    ]
