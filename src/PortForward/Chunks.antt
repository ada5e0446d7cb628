-- ===== src/PortForward/Chunks.antt =====
-- The size of the matchers of src/port_forward.rs: iptables takes at most 15 ports in a multiport
-- match.
use kelinode_rs.Prelude.{
  ℕ, zero, suc, ◌≤◌, min, List, [], ◌∷◌, ◌++◌, map, ◌==◌, take, drop, length, length-take, ◌≡◌, ap,
  ◌∙◌, arith, All, All-append, if_intro,
}
use kelinode_rs.Prelude.Text.{Text, split}
use kelinode_rs.Prelude.Split.{split-join}
use kelinode_rs.Prelude.Decimal.{decimal}
use kelinode_rs.PortForward.{
  PortForwardMatcher, PortForwardRange, chunk_matcher, range_matcher, flush_chunks, flush_singles,
  collect_matchers, port_forward_matchers_from_ranges,
}
use kelinode_rs.PortForward.Matchers.{chunk_size-suc, decimals_Without}

-- The ports that a multiport matcher lists; the other matchers have one specification.
abbrev pub listed_ports : List Text → ℕ
listed_ports (m ∷ multiport ∷ flag ∷ specs ∷ []) = length (split b',' specs)
listed_ports _ = 1

abbrev pub IsSmall : PortForwardMatcher → Type 0
IsSmall m = listed_ports m.args ≤ 15

length-map : {A B : Type 0} (f : A → B) (xs : List A) → length (map f xs) ≡ length xs
length-map f [] = omega arith
length-map f (x ∷ xs) = omega (arith, length-map f xs)

chunk_matcher-IsSmall :
    (n : ℕ) (singles : List ℕ) → length singles ≤ 14 → IsSmall (chunk_matcher (n ∷ singles))
unfolding chunk_matcher
chunk_matcher-IsSmall n [] h = omega arith
chunk_matcher-IsSmall n (k ∷ singles) h = omega (
  arith,
  ap length (
        split-join b',' (decimal n) (map decimal (k ∷ singles))
          (decimals_Without (n ∷ k ∷ singles)))
      ∙ length-map decimal (n ∷ k ∷ singles),
)

range_matcher-IsSmall : (a b : ℕ) → IsSmall (range_matcher a b)
unfolding range_matcher
range_matcher-IsSmall a b = omega arith

flush_chunks-IsSmall : (fuel : ℕ) (singles : List ℕ) → All IsSmall (flush_chunks fuel singles)
unfolding flush_chunks
flush_chunks-IsSmall zero singles = tt
flush_chunks-IsSmall (suc fuel) [] = tt
flush_chunks-IsSmall (suc fuel) (n ∷ singles) =
    let k = min (length singles) 14 in
    rw (chunk_size-suc (length singles)) (
      chunk_matcher-IsSmall n (take k singles) (omega (arith, length-take k singles)),
      flush_chunks-IsSmall fuel (drop k singles),
    )

flush_singles-IsSmall :
    (singles : List ℕ) (matchers : List PortForwardMatcher)
    → All IsSmall matchers
    → All IsSmall (flush_singles singles matchers)
unfolding flush_singles
flush_singles-IsSmall singles matchers h =
    All-append IsSmall matchers _ h (flush_chunks-IsSmall (length singles) singles)

collect_matchers-IsSmall :
    (matchers : List PortForwardMatcher) (singles : List ℕ) (ranges : List PortForwardRange)
    → All IsSmall matchers
    → All IsSmall (collect_matchers matchers singles ranges)
unfolding collect_matchers
collect_matchers-IsSmall matchers singles [] h = flush_singles-IsSmall singles matchers h
collect_matchers-IsSmall matchers singles (r ∷ ranges) h =
    if_intro (All IsSmall) (r.start == r.end)
      (λ _. collect_matchers-IsSmall matchers (singles ++ r.start ∷ []) ranges h)
      (λ _.
        collect_matchers-IsSmall
          (flush_singles singles matchers ++ range_matcher r.start r.end ∷ []) [] ranges
          (All-append IsSmall (flush_singles singles matchers) _
            (flush_singles-IsSmall singles matchers h) (range_matcher-IsSmall r.start r.end, tt)))

-- No matcher made from ranges lists more than 15 ports, however many single ports there are.
pub port_forward_matchers-IsSmall :
    (ranges : List PortForwardRange) → All IsSmall (port_forward_matchers_from_ranges ranges)
unfolding port_forward_matchers_from_ranges
port_forward_matchers-IsSmall ranges = collect_matchers-IsSmall [] [] ranges tt
