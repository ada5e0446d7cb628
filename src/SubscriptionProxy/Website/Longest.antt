-- ===== src/SubscriptionProxy/Website/Longest.antt =====
-- The website that src/subscription_proxy.rs picks for a path.
use kelinode_rs.Prelude.{
  ℕ, ◌≤◌, true, false, Option, none, some, List, [], ◌∷◌, leb, All, ◌≡◌, refl, ◌⊎◌, arith,
  Bool-cases, inl, inr, if_intro,
}
use kelinode_rs.Prelude.Text.{Text, len}
use kelinode_rs.SubscriptionProxy.{WebsiteProxyProfile}
use kelinode_rs.SubscriptionProxy.Paths.{normalize_proxy_path_prefix}
use kelinode_rs.SubscriptionProxy.Website.{
  WebsiteMatch, match_of, is_match, website_matches, longest, website_proxy_match, or_root,
}

abbrev pub Among : {A : Type 0} → A → List A → Type 0
Among a [] = ⊥
Among a (b ∷ bs) = (a ≡ b) ⊎ Among a bs

-- A match of a profile in the list.
pub record IsMatchOf (path : Text) (ps : List WebsiteProxyProfile) (m : WebsiteMatch) : Type 0 where
  pub profile : WebsiteProxyProfile
  pub among : Among profile ps
  pub matches : is_match path profile ≡ true
  pub taken : m ≡ match_of path profile

abbrev pub AtMost : Text → ℕ → List WebsiteProxyProfile → Type 0
AtMost path n ps =
    All (λ p. (is_match path p ≡ false) ⊎ (len (normalize_proxy_path_prefix p.path_prefix) ≤ n)) ps

-- No profile matches, or one that matches is taken and none that matches has a longer prefix.
abbrev pub IsChoice : Text → List WebsiteProxyProfile → Option WebsiteMatch → Type 0
IsChoice path ps none = All (λ p. is_match path p ≡ false) ps
IsChoice path ps (some m) = IsMatchOf path ps m × AtMost path (len m.prefix) ps

-- What is chosen among some matches and a best one before them.
record IsBest (best : WebsiteMatch) (ms : List WebsiteMatch) (r : WebsiteMatch) : Type 0 where
  found : longest (some best) ms ≡ some r
  from : (r ≡ best) ⊎ Among r ms
  above : len best.prefix ≤ len r.prefix
  all_below : All (λ (m : WebsiteMatch). len m.prefix ≤ len r.prefix) ms

of_IsBest : (best : WebsiteMatch) (ms : List WebsiteMatch) → (r : WebsiteMatch) × IsBest best ms r
unfolding longest
of_IsBest best [] =
    (best, record { found = refl; from = inl refl; above = omega arith; all_below = tt })
of_IsBest best (m ∷ ms) = elim (Bool-cases (leb (len best.prefix) (len m.prefix))) [
  | inl longer ↦
      let (r, b) = of_IsBest m ms in
      (
        r,
        record {
          found = rw longer b.found;
          from = inr b.from;
          above = ground (arith, b.above);
          all_below = (b.above, b.all_below);
        },
      )
  | inr shorter ↦
      let (r, b) = of_IsBest best ms in
      (
        r,
        record {
          found = rw shorter b.found;
          from = elim b.from [ inl e ↦ inl e | inr a ↦ inr (inr a) ];
          above = b.above;
          all_below = (ground (arith, b.above), b.all_below);
        },
      )
]

module _ (path : Text) where
  later_match :
      (p : WebsiteProxyProfile) (ps : List WebsiteProxyProfile) (m : WebsiteMatch)
      → IsMatchOf path ps m
      → IsMatchOf path (p ∷ ps) m
  later_match p ps m h = record {
    profile = h.profile;
    among = inr h.among;
    matches = h.matches;
    taken = h.taken;
  }

  matches_of :
      (ps : List WebsiteProxyProfile) (m : WebsiteMatch)
      → Among m (website_matches ps path)
      → IsMatchOf path ps m
  unfolding website_matches
  matches_of [] m = λ a. absurd a
  matches_of (p ∷ ps) m =
      let later = matches_of ps m in
      if_intro (λ ms. Among m ms → IsMatchOf path (p ∷ ps) m) (is_match path p)
        (λ h a. elim a [
          | inl e ↦ record { profile = p; among = inl refl; matches = h; taken = e }
          | inr r ↦ later_match p ps m (later r)
        ])
        (λ h a. later_match p ps m (later a))

  at_most :
      (ps : List WebsiteProxyProfile) (n : ℕ)
      → All (λ (m : WebsiteMatch). len m.prefix ≤ n) (website_matches ps path)
      → AtMost path n ps
  unfolding website_matches
  at_most [] n = λ a. tt
  at_most (p ∷ ps) n =
      let later = at_most ps n in
      if_intro (λ ms. All (λ (m : WebsiteMatch). len m.prefix ≤ n) ms → AtMost path n (p ∷ ps))
        (is_match path p) (λ h a. (inr a.0, later a.1)) (λ h a. (inl h, later a))

  none_match :
      (ps : List WebsiteProxyProfile)
      → website_matches ps path ≡ []
      → All (λ p. is_match path p ≡ false) ps
  unfolding website_matches
  none_match [] = λ e. tt
  none_match (p ∷ ps) =
      let later = none_match ps in
      if_intro (λ ms. ms ≡ [] → All (λ q. is_match path q ≡ false) (p ∷ ps)) (is_match path p)
        (λ h e. cc) (λ h e. (h, later e))

  choice :
      (ps : List WebsiteProxyProfile) (ms : List WebsiteMatch)
      → website_matches ps path ≡ ms
      → IsChoice path ps (longest none ms)
  unfolding longest
  choice ps [] e = none_match ps e
  choice ps (m ∷ ms) e =
      let (r, b) = of_IsBest m ms in
      let among : Among r (website_matches ps path) = rw e b.from in
      let below : All (λ (x : WebsiteMatch). len x.prefix ≤ len r.prefix)
          (website_matches ps path) =
        rw e (b.above, b.all_below) in
      rw b.found (matches_of ps r among, at_most ps (len r.prefix) below)

-- For every list of websites and every path: if no website is chosen then none has a prefix that
-- matches the path, and one that is chosen is of the list, matches, is asked for the path below its
-- prefix, and has the longest prefix of those that match.
pub website_proxy_match-IsChoice :
    (ps : List WebsiteProxyProfile) (path : Text)
    → IsChoice (or_root path) ps (website_proxy_match ps path)
unfolding website_proxy_match
website_proxy_match-IsChoice ps path =
    choice (or_root path) ps (website_matches ps (or_root path)) refl
