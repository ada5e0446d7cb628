-- ===== src/SubscriptionProxy/Normalize/Profiles.antt =====
-- What src/subscription_proxy.rs makes of the sites of a configuration.
use kelinode_rs.Prelude.{
  Bool, true, false, not, ◌&&◌, ◌||◌, List, [], ◌∷◌, map, is_empty, All, ◌≡◌, refl, arith, if_intro,
}
use mathlib.Core.Path.{subst}
use kelinode_rs.Prelude.Text.{Text, text, text_eq_iff, to_lower}
use kelinode_rs.Prelude.Result.{
  Result, ok, err, ◌>>=◌, Ensures, Yields, of_value, of_error, then-Yields, map-Yields,
  Yields-Ensures,
}
use kelinode_rs.SubscriptionProxy.{
  SubscriptionProxyConfig, SubscriptionProxyProfile, WebsiteProxyProfile,
}
use kelinode_rs.SubscriptionProxy.Paths.{
  is_valid_upstream_base_url, trim_subscription_path, first_non_empty,
}
use kelinode_rs.SubscriptionProxy.Normalize.{
  is_seen, cons_ok, normal_profile, normalize_profiles, normal_website, website_key,
  normalize_website_profiles, normal_fields, all_profiles, checked, with_profiles,
  normalize_subscription_proxy_config,
}

-- No key is among those before it.
abbrev pub AreFresh : List Text → List Text → Type 0
AreFresh seen [] = Unit {0}
AreFresh seen (k ∷ ks) = (is_seen k seen ≡ false) × AreFresh (k ∷ seen) ks

abbrev pub profile_key : SubscriptionProxyProfile → Text
profile_key p = map to_lower p.site_id

pub record IsSite (p : SubscriptionProxyProfile) : Type 0 where
  pub named : is_empty p.site_id ≡ false
  pub valid : is_valid_upstream_base_url p.upstream_base_url ≡ true
  pub path : is_empty p.subscribe_path ≡ false

pub record IsWebsite (p : WebsiteProxyProfile) : Type 0 where
  pub named : is_empty p.site_id ≡ false
  pub valid : is_valid_upstream_base_url p.upstream_base_url ≡ true

-- A site of the source is named and has an upstream, or it is left out.
abbrev pub is_left_out : SubscriptionProxyProfile → Bool
is_left_out profile =
    let p = normal_profile profile in is_empty p.site_id || is_empty p.upstream_base_url

abbrev pub is_website_left_out : WebsiteProxyProfile → Bool
is_website_left_out profile =
    let p = normal_website profile in is_empty p.site_id || is_empty p.upstream_base_url

-- Each key is among those of the result or those seen before, if its site is not left out.
abbrev pub IsKept : {A : Type 0} → (A → Bool) → (A → Text) → List Text → List Text → List A → Type 0
IsKept left_out key seen keys sources =
    All (λ s. (left_out s || (is_seen (key s) keys || is_seen (key s) seen)) ≡ true) sources

abbrev source_key : SubscriptionProxyProfile → Text
source_key profile = profile_key (normal_profile profile)

abbrev website_source_key : WebsiteProxyProfile → Text
website_source_key profile = website_key (normal_website profile)

abbrev AreSites : List Text → List SubscriptionProxyProfile → List SubscriptionProxyProfile → Type 0
AreSites seen sources ps =
    All IsSite ps
    × AreFresh seen (map profile_key ps)
    × IsKept is_left_out source_key seen (map profile_key ps) sources

abbrev AreWebsites : List Text → List WebsiteProxyProfile → List WebsiteProxyProfile → Type 0
AreWebsites seen sources ps =
    All IsWebsite ps
    × AreFresh seen (map website_key ps)
    × IsKept is_website_left_out website_source_key seen (map website_key ps) sources

-- A key that is put before others is seen wherever it was, and is seen itself.
pub moved-IsKept :
    {A : Type 0} (left_out : A → Bool) (key : A → Text) (k : Text) (seen keys : List Text)
    (sources : List A)
    → IsKept left_out key (k ∷ seen) keys sources
    → IsKept left_out key seen (k ∷ keys) sources
moved-IsKept left_out key k seen keys [] h = tt
moved-IsKept left_out key k seen keys (s ∷ sources) (h, hs) =
    (ground arith, moved-IsKept left_out key k seen keys sources hs)

cons_ok-Yields :
    {E A : Type 0} (P Q : List A → Type 0) (a : A) (r : Result E (List A))
    → ((rest : List A) → Q rest → P (a ∷ rest))
    → Yields Q r
    → Yields P (cons_ok a r)
cons_ok-Yields P Q a (ok rest) h (of_value q) = of_value (h rest q)
cons_ok-Yields P Q a (err e) h y = of_error

path_lem : (s : Text) → is_empty (first_non_empty s (text "s")) ≡ false
path_lem [] = refl
path_lem (_ ∷ _) = refl

now_seen : (a b c : Bool) → (a || c) ≡ true → (a || (b || c)) ≡ true
now_seen a b c h = ground arith

normalize_profiles-AreSites :
    (seen : List Text) (ps : List SubscriptionProxyProfile)
    → Yields (AreSites seen ps) (normalize_profiles seen ps)
unfolding normalize_profiles
normalize_profiles-AreSites seen [] = of_value (tt, tt, tt)
normalize_profiles-AreSites seen (profile ∷ ps) =
    let p = normal_profile profile in
    let key = profile_key p in
    let P = AreSites seen (profile ∷ ps) in
    let kept_rest = normalize_profiles-AreSites seen ps in
    let on = normalize_profiles-AreSites (key ∷ seen) ps in
    let skip =
      λ (h : ((is_empty p.site_id || is_empty p.upstream_base_url) || is_seen key seen) ≡ true).
        map-Yields (AreSites seen ps) P (normalize_profiles seen ps)
          (λ rest sites.
            (sites.0, sites.1, (now_seen _ (is_seen key (map profile_key rest)) _ h, sites.2)))
          kept_rest in
    if_intro (Yields P) (is_empty p.site_id || is_empty p.upstream_base_url)
      (λ out. skip (ground arith))
      (λ kept.
        if_intro (Yields P) (not (is_valid_upstream_base_url p.upstream_base_url)) (λ _. of_error)
          (λ valid.
            if_intro (Yields P) (is_seen key seen) (λ known. skip (ground arith))
              (λ fresh.
                cons_ok-Yields P (AreSites (key ∷ seen) ps) p (normalize_profiles (key ∷ seen) ps)
                  (λ rest sites. (
                    (
                      record {
                        named = ground arith;
                        valid = ground arith;
                        path = path_lem (trim_subscription_path profile.subscribe_path);
                      },
                      sites.0,
                    ),
                    (fresh, sites.1),
                    (
                      ground (arith, (text_eq_iff key key).1 refl),
                      moved-IsKept is_left_out source_key key seen (map profile_key rest) ps
                          sites.2,
                    ),
                  ))
                  on)))

normalize_website_profiles-AreWebsites :
    (seen : List Text) (ps : List WebsiteProxyProfile)
    → Yields (AreWebsites seen ps) (normalize_website_profiles seen ps)
unfolding normalize_website_profiles
normalize_website_profiles-AreWebsites seen [] = of_value (tt, tt, tt)
normalize_website_profiles-AreWebsites seen (profile ∷ ps) =
    let p = normal_website profile in
    let key = website_key p in
    let P = AreWebsites seen (profile ∷ ps) in
    let kept_rest = normalize_website_profiles-AreWebsites seen ps in
    let on = normalize_website_profiles-AreWebsites (key ∷ seen) ps in
    let skip =
      λ (h : ((is_empty p.site_id || is_empty p.upstream_base_url) || is_seen key seen) ≡ true).
        map-Yields (AreWebsites seen ps) P (normalize_website_profiles seen ps)
          (λ rest sites.
            (sites.0, sites.1, (now_seen _ (is_seen key (map website_key rest)) _ h, sites.2)))
          kept_rest in
    if_intro (Yields P) (is_empty p.site_id || is_empty p.upstream_base_url)
      (λ out. skip (ground arith))
      (λ kept.
        if_intro (Yields P) (not (is_valid_upstream_base_url p.upstream_base_url)) (λ _. of_error)
          (λ valid.
            if_intro (Yields P) (is_seen key seen) (λ known. skip (ground arith))
              (λ fresh.
                cons_ok-Yields P (AreWebsites (key ∷ seen) ps) p
                  (normalize_website_profiles (key ∷ seen) ps)
                  (λ rest sites. (
                    (record { named = ground arith; valid = ground arith }, sites.0),
                    (fresh, sites.1),
                    (
                      ground (arith, (text_eq_iff key key).1 refl),
                      moved-IsKept is_website_left_out website_source_key key seen
                          (map website_key rest) ps sites.2,
                    ),
                  ))
                  on)))

pub record IsNormal (source c : SubscriptionProxyConfig) : Type 0 where
  pub sites : All IsSite c.profiles
  pub fresh : AreFresh [] (map profile_key c.profiles)
  pub kept :
      IsKept is_left_out source_key []
        (map profile_key c.profiles)
        (all_profiles (normal_fields source))
  pub websites : All IsWebsite c.website_profiles
  pub fresh_websites : AreFresh [] (map website_key c.website_profiles)
  pub kept_websites :
      IsKept is_website_left_out website_source_key []
        (map website_key c.website_profiles)
        source.website_profiles
  pub serves : c.enabled ≡ (not (is_empty c.profiles) || not (is_empty c.website_profiles))

checked-IsNormal :
    (source : SubscriptionProxyConfig) (ps : List SubscriptionProxyProfile)
    (ws : List WebsiteProxyProfile)
    → AreSites [] (all_profiles (normal_fields source)) ps
    → AreWebsites [] source.website_profiles ws
    → Yields (IsNormal source) (checked (with_profiles (normal_fields source) ps ws))
checked-IsNormal source ps ws (sites, fresh, kept) (websites, fresh_websites, kept_websites) =
    let c = with_profiles (normal_fields source) ps ws in
    if_intro (Yields (IsNormal source))
      (c.enabled && (is_empty c.profiles && is_empty c.website_profiles)) (λ _. of_error)
      (λ h. of_value (record {
        sites = sites;
        fresh = fresh;
        kept = kept;
        websites = websites;
        fresh_websites = fresh_websites;
        kept_websites = kept_websites;
        serves = serves_lem source.enabled (is_empty ps) (is_empty ws) h;
      }))
  where
    serves_lem :
        (e p w : Bool)
        → ((e || (not p || not w)) && (p && w)) ≡ false
        → (e || (not p || not w)) ≡ (not p || not w)
    serves_lem true true true h = cc
    serves_lem true true false h = refl
    serves_lem true false w h = refl
    serves_lem false p w h = refl

normalize-Yields :
    (source : SubscriptionProxyConfig)
    → Yields (IsNormal source) (normalize_subscription_proxy_config source)
unfolding normalize_subscription_proxy_config
normalize-Yields source =
    then-Yields (AreSites [] (all_profiles (normal_fields source))) (IsNormal source)
      (normalize_profiles [] (all_profiles (normal_fields source)))
      (λ ps. normalize_website_profiles [] source.website_profiles >>= λ ws.
        checked (with_profiles (normal_fields source) ps ws))
      (normalize_profiles-AreSites [] (all_profiles (normal_fields source)))
      (λ ps sites.
        then-Yields (AreWebsites [] source.website_profiles) (IsNormal source)
          (normalize_website_profiles [] source.website_profiles)
          (λ ws. checked (with_profiles (normal_fields source) ps ws))
          (normalize_website_profiles-AreWebsites [] source.website_profiles)
          (λ ws websites. checked-IsNormal source ps ws sites websites))

-- What a configuration is normalised to, if it is: each site and website has a name and a valid
-- upstream, and each site a path; no two sites have the same name, letter case aside, and no two
-- websites the same name and prefix; each site of the source that has a name and an upstream is
-- there by its name, and each website by its name and prefix; and the proxy is enabled exactly if
-- there is a site or a website.
pub normalize-IsNormal :
    (source c : SubscriptionProxyConfig)
    → normalize_subscription_proxy_config source ≡ ok c
    → IsNormal source c
normalize-IsNormal source c h =
    subst (Ensures (IsNormal source)) h (Yields-Ensures (normalize-Yields source))
