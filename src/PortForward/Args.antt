-- ===== src/PortForward/Args.antt =====
-- The arguments that src/port_forward.rs makes hold no `\0`, so that the key of a rule, which joins
-- them by it, tells different arguments apart.
use kelinode_rs.Prelude.{
  ℕ, zero, suc, min, false, List, [], ◌∷◌, ◌++◌, map, ◌==◌, take, drop, length, ◌≡◌, refl, sym, ap,
  ◌∙◌, arith, All, All-append, if_intro,
}
use kelinode_rs.Prelude.Text.{Text, text, has_char, split, join, is_digit}
use kelinode_rs.Prelude.Split.{split-join, Without, has_char-append}
use kelinode_rs.Prelude.Decimal.{decimal}
use kelinode_rs.PortForward.{
  PortForwardMatcher, PortForwardRange, chunk_matcher, range_matcher, flush_chunks, flush_singles,
  collect_matchers, port_forward_matchers_from_ranges,
}
use kelinode_rs.PortForward.Matchers.{decimal_without, chunk_size-suc}

-- There are arguments, and none holds a `\0`.
abbrev pub IsArgs : List Text → Type 0
IsArgs [] = ⊥
IsArgs (s ∷ ss) = Without 0 (s ∷ ss)

pub join-IsArgs :
    (xs ys : List Text) → IsArgs xs → IsArgs ys → join (0 ∷ []) xs ≡ join (0 ∷ []) ys → xs ≡ ys
join-IsArgs [] ys h k e = absurd h
join-IsArgs (x ∷ xs) [] h k e = absurd k
join-IsArgs (x ∷ xs) (y ∷ ys) h k e =
    sym (split-join 0 x xs h) ∙ ap (split 0) e ∙ split-join 0 y ys k

-- Two texts split at the first `c` alike.
pub cut_at :
    (c : ℕ) (s s' t t' : Text)
    → has_char c s ≡ false
    → has_char c s' ≡ false
    → s ++ c ∷ t ≡ s' ++ c ∷ t'
    → t ≡ t'
cut_at c [] [] t t' h k e = cc
cut_at c [] (b ∷ s') t t' h k e = ground arith
cut_at c (a ∷ s) [] t t' h k e = ground arith
cut_at c (a ∷ s) (b ∷ s') t t' h k e = cut_at c s s' t t' (ground arith) (ground arith) (cc)

decimal_no_zero : (n : ℕ) → has_char 0 (decimal n) ≡ false
decimal_no_zero n = decimal_without 0 n (unfold is_digit in refl)

join_no_zero :
    (sep : Text) (parts : List Text)
    → has_char 0 sep ≡ false
    → Without 0 parts
    → has_char 0 (join sep parts) ≡ false
unfolding join
join_no_zero sep [] h k = refl
join_no_zero sep (s ∷ []) h (k, _) = k
join_no_zero sep (s ∷ t ∷ parts) h (k, ks) =
    has_char-append 0 s (sep ++ join sep (t ∷ parts)) k
      (has_char-append 0 sep (join sep (t ∷ parts)) h (join_no_zero sep (t ∷ parts) h ks))

decimals_no_zero : (singles : List ℕ) → Without 0 (map decimal singles)
decimals_no_zero [] = tt
decimals_no_zero (n ∷ singles) = (decimal_no_zero n, decimals_no_zero singles)

abbrev HasArgs : PortForwardMatcher → Type 0
HasArgs m = IsArgs m.args

chunk_matcher-IsArgs : (n : ℕ) (singles : List ℕ) → HasArgs (chunk_matcher (n ∷ singles))
unfolding chunk_matcher
chunk_matcher-IsArgs n [] = (refl, (decimal_no_zero n, tt))
chunk_matcher-IsArgs n (k ∷ singles) = (
  refl,
  (
    refl,
    (
      refl,
      (
        join_no_zero (text ",") (map decimal (n ∷ k ∷ singles)) refl
            (decimals_no_zero (n ∷ k ∷ singles)),
        tt,
      ),
    ),
  ),
)

range_matcher-IsArgs : (a b : ℕ) → HasArgs (range_matcher a b)
unfolding range_matcher
range_matcher-IsArgs a b = (
  refl,
  (has_char-append 0 (decimal a) (b':' ∷ decimal b) (decimal_no_zero a) (decimal_no_zero b), tt),
)

flush_chunks-IsArgs : (fuel : ℕ) (singles : List ℕ) → All HasArgs (flush_chunks fuel singles)
unfolding flush_chunks
flush_chunks-IsArgs zero singles = tt
flush_chunks-IsArgs (suc fuel) [] = tt
flush_chunks-IsArgs (suc fuel) (n ∷ singles) = rw (chunk_size-suc (length singles)) (
  chunk_matcher-IsArgs n (take (min (length singles) 14) singles),
  flush_chunks-IsArgs fuel (drop (min (length singles) 14) singles),
)

collect_matchers-IsArgs :
    (matchers : List PortForwardMatcher) (singles : List ℕ) (ranges : List PortForwardRange)
    → All HasArgs matchers
    → All HasArgs (collect_matchers matchers singles ranges)
unfolding collect_matchers flush_singles
collect_matchers-IsArgs matchers singles [] h =
    All-append HasArgs matchers _ h (flush_chunks-IsArgs (length singles) singles)
collect_matchers-IsArgs matchers singles (r ∷ ranges) h =
    if_intro (All HasArgs) (r.start == r.end)
      (λ _. collect_matchers-IsArgs matchers (singles ++ r.start ∷ []) ranges h)
      (λ _.
        collect_matchers-IsArgs (flush_singles singles matchers ++ range_matcher r.start r.end ∷ [])
          [] ranges
          (All-append HasArgs (flush_singles singles matchers) _
            (All-append HasArgs matchers _ h (flush_chunks-IsArgs (length singles) singles))
            (range_matcher-IsArgs r.start r.end, tt)))

pub port_forward_matchers-IsArgs :
    (ranges : List PortForwardRange)
    → All (λ m. IsArgs m.args) (port_forward_matchers_from_ranges ranges)
unfolding port_forward_matchers_from_ranges
port_forward_matchers-IsArgs ranges = collect_matchers-IsArgs [] [] ranges tt
