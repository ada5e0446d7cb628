-- ===== src/Machine/Sites.antt =====
-- The sites and websites of the configuration that src/machine.rs makes for the subscription proxy.
use kelinode_rs.Prelude.{
  true, false, not, ◌&&◌, List, [], ◌∷◌, is_empty, All, ◌≡◌, refl, sym, arith, if_intro,
}
use mathlib.Core.Path.{subst}
use kelinode_rs.SubscriptionProxy.{
  SubscriptionProxyProfile, WebsiteProxyProfile,
  SubscriptionProxyConfig as RuntimeSubscriptionProxyConfig,
}
use kelinode_rs.Machine.{MachineProfileConfig, SubscriptionProxyConfig}
use kelinode_rs.Machine.Pushed.{ArePushed, push_all, push_all-ArePushed, push_all_empty}
use kelinode_rs.Machine.Names.{valid_subscription_proxy_profile}
use kelinode_rs.Machine.Merge.{push_sites, merge_sites, taken_over, filled}
use kelinode_rs.Machine.Offered.{
  has_site, website_proxy_profile_exists, push_profiles, push_websites, site_of, upstream_of,
  valid_profiles, valid_websites,
}

abbrev pub IsValidSite : SubscriptionProxyProfile → Type 0
IsValidSite p = valid_subscription_proxy_profile p.site_id p.upstream_base_url ≡ true

abbrev pub IsValidWebsite : WebsiteProxyProfile → Type 0
IsValidWebsite p = valid_subscription_proxy_profile p.site_id p.upstream_base_url ≡ true

push_profiles_lem :
    (new target : List SubscriptionProxyProfile)
    → push_profiles target new ≡ push_all has_site target new
unfolding push_profiles
push_profiles_lem [] target = refl
push_profiles_lem (p ∷ new) target = push_profiles_lem new _

push_websites_lem :
    (new target : List WebsiteProxyProfile)
    → push_websites target new ≡ push_all website_proxy_profile_exists target new
unfolding push_websites
push_websites_lem [] target = refl
push_websites_lem (p ∷ new) target = push_websites_lem new _

no_website : (p : WebsiteProxyProfile) → website_proxy_profile_exists [] p ≡ false
unfolding website_proxy_profile_exists
no_website p = refl

-- The sites and websites are valid and apart, and the proxy is enabled exactly if there is one.
pub record AreServed (config : RuntimeSubscriptionProxyConfig) : Type 0 where
  pub sites : ArePushed has_site IsValidSite config.profiles
  pub websites : ArePushed website_proxy_profile_exists IsValidWebsite config.website_profiles
  pub serves : config.enabled ≡ not (is_empty config.profiles && is_empty config.website_profiles)

pub push_sites-AreServed :
    (t : RuntimeSubscriptionProxyConfig) (ps : List SubscriptionProxyProfile)
    (ws : List WebsiteProxyProfile)
    → ArePushed has_site IsValidSite t.profiles
    → ArePushed website_proxy_profile_exists IsValidWebsite t.website_profiles
    → t.enabled ≡ true
    → (is_empty ps && is_empty ws) ≡ false
    → All IsValidSite ps
    → All IsValidWebsite ws
    → AreServed (push_sites t ps ws)
push_sites-AreServed t ps ws sites websites enabled some_site valid valid_websites = record {
  sites =
      subst (ArePushed has_site IsValidSite) (sym (push_profiles_lem ps t.profiles))
        (push_all-ArePushed has_site IsValidSite t.profiles ps sites valid);
  websites =
      subst (ArePushed website_proxy_profile_exists IsValidWebsite)
        (sym (push_websites_lem ws t.website_profiles))
        (push_all-ArePushed website_proxy_profile_exists IsValidWebsite t.website_profiles ws
          websites valid_websites);
  serves =
      rw (push_profiles_lem ps t.profiles, push_websites_lem ws t.website_profiles)
        (ground (
          arith,
          enabled,
          some_site,
          push_all_empty has_site t.profiles ps (λ _. refl),
          push_all_empty website_proxy_profile_exists t.website_profiles ws no_website,
        ));
}

pub valid_profiles-IsValidSite :
    (profile : MachineProfileConfig) (rows : List SubscriptionProxyProfile)
    → All IsValidSite (valid_profiles profile rows)
unfolding valid_profiles
valid_profiles-IsValidSite profile [] = tt
valid_profiles-IsValidSite profile (row ∷ rows) =
    let rest = valid_profiles-IsValidSite profile rows in
    if_intro (All IsValidSite)
      (not (
        valid_subscription_proxy_profile (site_of profile row.site_id)
          (upstream_of profile row.upstream_base_url)))
      (λ _. rest) (λ h. (ground (arith, h), rest))

pub valid_websites-IsValidWebsite :
    (profile : MachineProfileConfig) (rows : List WebsiteProxyProfile)
    → All IsValidWebsite (valid_websites profile rows)
unfolding valid_websites
valid_websites-IsValidWebsite profile [] = tt
valid_websites-IsValidWebsite profile (row ∷ rows) =
    let rest = valid_websites-IsValidWebsite profile rows in
    if_intro (All IsValidWebsite)
      (not (
        valid_subscription_proxy_profile (site_of profile row.site_id)
          (upstream_of profile row.upstream_base_url)))
      (λ _. rest) (λ h. (ground (arith, h), rest))

pub merge_sites-AreServed :
    (target : RuntimeSubscriptionProxyConfig) (source : SubscriptionProxyConfig)
    (ps : List SubscriptionProxyProfile) (ws : List WebsiteProxyProfile)
    → AreServed target
    → All IsValidSite ps
    → All IsValidWebsite ws
    → AreServed (merge_sites target source ps ws)
merge_sites-AreServed target source ps ws h valid valid_websites =
    if_intro AreServed (is_empty ps && is_empty ws) (λ _. h)
      (λ some_site.
        if_intro (λ t. AreServed (push_sites t ps ws)) (not target.enabled)
          (λ _.
            push_sites-AreServed (taken_over target source) ps ws h.sites h.websites refl some_site
              valid valid_websites)
          (λ on.
            push_sites-AreServed (filled target source) ps ws h.sites h.websites
              (ground (arith, on)) some_site valid valid_websites))
