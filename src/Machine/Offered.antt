-- ===== src/Machine/Offered.antt =====
-- The sites and websites that the panel of a profile offers to the subscription proxy, in
-- src/machine.rs, and how they are pushed on those that are there.
use kelinode_rs.Prelude.{Bool, not, ◌&&◌, ◌||◌, List, [], ◌∷◌, ◌++◌, if◌then◌else◌, is_empty, any}
use kelinode_rs.Prelude.Text.{Text, text, text_eq, trim, trim_matches}
use kelinode_rs.Prelude.Str.{eq_ignore_ascii_case}
use kelinode_rs.SubscriptionProxy.{SubscriptionProxyProfile, WebsiteProxyProfile}
use kelinode_rs.SubscriptionProxy.Paths.{is_slash, normalize_proxy_path_prefix}
use kelinode_rs.Machine.{MachineProfileConfig, SubscriptionProxyConfig}
use kelinode_rs.Machine.Names.{
  first_non_empty, machine_profile_label, sanitize_machine_profile_name,
  valid_subscription_proxy_profile, without_slashes,
}

abbrev pub has_site : List SubscriptionProxyProfile → SubscriptionProxyProfile → Bool
has_site profiles profile =
    any (λ existing. eq_ignore_ascii_case existing.site_id profile.site_id) profiles

unfoldable pub website_proxy_profile_exists : List WebsiteProxyProfile → WebsiteProxyProfile → Bool
website_proxy_profile_exists profiles profile =
    any
      (λ existing.
        eq_ignore_ascii_case existing.site_id profile.site_id
        && text_eq (normalize_proxy_path_prefix existing.path_prefix)
            (normalize_proxy_path_prefix profile.path_prefix))
      profiles

-- The two loops at the end, which leave out what is there.
unfoldable pub push_profiles :
    List SubscriptionProxyProfile → List SubscriptionProxyProfile → List SubscriptionProxyProfile
push_profiles target [] = target
push_profiles target (profile ∷ profiles) =
    push_profiles (if has_site target profile then target else target ++ profile ∷ []) profiles

unfoldable pub push_websites :
    List WebsiteProxyProfile → List WebsiteProxyProfile → List WebsiteProxyProfile
push_websites target [] = target
push_websites target (profile ∷ profiles) =
    push_websites
      (if website_proxy_profile_exists target profile then target else target ++ profile ∷ [])
      profiles

-- The site that a profile without a list of sites stands for.
abbrev pub legacy_profile : SubscriptionProxyConfig → SubscriptionProxyProfile
legacy_profile source = record {
  site_id = source.site_id;
  upstream_base_url = source.upstream_base_url;
  subscribe_path = source.subscribe_path;
}

abbrev pub has_explicit_legacy_subscription : SubscriptionProxyConfig → Bool
has_explicit_legacy_subscription source =
    not (is_empty (trim source.site_id))
    || (not (is_empty (trim source.upstream_base_url))
        || not (is_empty (trim source.subscribe_path)))

abbrev pub source_profiles : SubscriptionProxyConfig → List SubscriptionProxyProfile
source_profiles source =
    if is_empty source.profiles
      && (is_empty source.website_profiles || has_explicit_legacy_subscription source)
    then legacy_profile source ∷ []
    else source.profiles

abbrev pub site_of : MachineProfileConfig → Text → Text
site_of profile site_id =
    sanitize_machine_profile_name (first_non_empty (trim site_id) (machine_profile_label profile))

abbrev pub upstream_of : MachineProfileConfig → Text → Text
upstream_of profile url = first_non_empty (without_slashes url) (without_slashes profile.url)

-- The two maps that keep the sites which are valid.
unfoldable pub valid_profiles :
    MachineProfileConfig → List SubscriptionProxyProfile → List SubscriptionProxyProfile
valid_profiles profile [] = []
valid_profiles profile (row ∷ rows) =
    let site_id = site_of profile row.site_id in
    let upstream_base_url = upstream_of profile row.upstream_base_url in
    let rest = valid_profiles profile rows in
    if not (valid_subscription_proxy_profile site_id upstream_base_url)
    then rest
    else record {
      site_id = site_id;
      upstream_base_url = upstream_base_url;
      subscribe_path = first_non_empty (trim_matches is_slash row.subscribe_path) (text "s");
    }
      ∷ rest

unfoldable pub valid_websites :
    MachineProfileConfig → List WebsiteProxyProfile → List WebsiteProxyProfile
valid_websites profile [] = []
valid_websites profile (row ∷ rows) =
    let site_id = site_of profile row.site_id in
    let upstream_base_url = upstream_of profile row.upstream_base_url in
    let rest = valid_websites profile rows in
    if not (valid_subscription_proxy_profile site_id upstream_base_url)
    then rest
    else record {
      site_id = site_id;
      upstream_base_url = upstream_base_url;
      path_prefix = normalize_proxy_path_prefix row.path_prefix;
    }
      ∷ rest
