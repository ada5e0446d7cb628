-- ===== src/SubscriptionProxy/Route/Followed.antt =====
-- A redirect of a website that src/subscription_proxy.rs rewrites, as the client that follows it asks
-- the proxy for it.
use kelinode_rs.Prelude.{
  true, false, none, some, List, [], if◌then◌else◌, ◌∷◌, ◌++◌, ◌≡◌, refl, ap, ◌∙◌,
}
use kelinode_rs.Prelude.Text.{Text, text, text_eq, trim, starts_with, strip_prefix, has_char}
use kelinode_rs.Prelude.Result.{ok}
use kelinode_rs.SubscriptionProxy.{
  SubscriptionProxyProfile, WebsiteProxyProfile, SubscriptionProxyInboundRequest,
  SubscriptionProxyUpstreamRequest, upstream,
}
use kelinode_rs.SubscriptionProxy.Paths.{
  starts_with_slash, trim_trailing_slashes, normalize_proxy_path_prefix, is_valid_upstream_base_url,
}
use kelinode_rs.SubscriptionProxy.Http.{path_and_query}
use kelinode_rs.SubscriptionProxy.Headers.{rewrite_website_location, upstream_forwarded_headers}
use kelinode_rs.SubscriptionProxy.Website.{
  is_allowed_website_proxy_method, match_of, website_proxy_match, website_proxy_upstream_path,
  build_website_upstream_url,
}
use kelinode_rs.SubscriptionProxy.Website.Redirect.{IsPrefix, query_text, redirect-upstream}
use kelinode_rs.SubscriptionProxy.Route.{
  upper_method, plan_website, plan_subscription_proxy_request,
}

-- The request is for a website, and the proxy picks this one for it.
pub record IsPicked (profile : WebsiteProxyProfile) (websites : List WebsiteProxyProfile)
    (r : SubscriptionProxyInboundRequest) : Type 0 where
  pub no_health : text_eq r.path (text "/health") ≡ false
  pub no_subscription : strip_prefix (text "/sub/") r.path ≡ none
  pub method : is_allowed_website_proxy_method (upper_method r) ≡ true
  pub picked : website_proxy_match websites r.path ≡ some (match_of r.path profile)

-- What the proxy then asks the website for.
abbrev website_request :
    WebsiteProxyProfile → SubscriptionProxyInboundRequest → Text → SubscriptionProxyUpstreamRequest
website_request profile r url =
    let head_only = text_eq (upper_method r) (text "HEAD") in
    record {
      method = upper_method r;
      url = url;
      headers = upstream_forwarded_headers r;
      body = if head_only then [] else r.body;
      head_only = head_only;
      follow_redirects = false;
      response_rewrite = some (record {
        upstream_base_url = trim_trailing_slashes (trim profile.upstream_base_url);
        proxy_path_prefix = normalize_proxy_path_prefix profile.path_prefix;
      });
    }

planned :
    (profile : WebsiteProxyProfile) (sites : List SubscriptionProxyProfile)
    (websites : List WebsiteProxyProfile) (r : SubscriptionProxyInboundRequest) (url : Text)
    → IsPicked profile websites r
    → build_website_upstream_url profile
        (website_proxy_upstream_path (normalize_proxy_path_prefix profile.path_prefix) r.path)
        r.raw_query
      ≡ ok url
    → (u : SubscriptionProxyUpstreamRequest) × (plan_subscription_proxy_request sites websites r
        ≡ ok (upstream u))
      × (u.url ≡ url)
unfolding plan_subscription_proxy_request plan_website
planned profile sites websites r url h built = (
  website_request profile r url,
  rw
      (
        h.no_health, h.no_subscription, plan_subscription_proxy_request, h.method, h.picked,
        plan_website, built,
      )
      refl,
  refl,
)

module _ (profile : WebsiteProxyProfile) (p q : Text) where
  abbrev pub base : Text
  base = trim_trailing_slashes (trim profile.upstream_base_url)

  -- The URL of the website at the path `p` with the query `q`.
  abbrev pub site_url : Text
  site_url = base ++ b'/' ∷ (p ++ query_text q)

  -- The location that the client is given in its place.
  abbrev pub given_location : Text
  given_location = rewrite_website_location site_url (record {
    upstream_base_url = base;
    proxy_path_prefix = normalize_proxy_path_prefix profile.path_prefix;
  })

  -- A URL that the website may redirect to: its path has one slash at its start and no question mark,
  -- its query starts with no second one, it has no blanks at its ends, and the website has a URL of
  -- its own with no slash and no blank at its ends.
  pub record IsSiteUrl : Type 0 where
    pub one_slash : starts_with_slash p ≡ false
    pub no_query : has_char b'?' p ≡ false
    pub no_mark : starts_with (text "?") q ≡ false
    pub trimmed : trim site_url ≡ site_url
    pub stable : trim_trailing_slashes (trim base) ≡ base
    pub valid : is_valid_upstream_base_url base ≡ true

  -- If a website redirects to a URL of its own, then the proxy plans the request for the location
  -- that the client is given as one for that very URL, if the website is the one that the proxy picks
  -- for the path, the path is that of no subscription and not `/health`, and the method is one that
  -- is passed on. The URL's path does not start with two slashes, has no question mark and its query
  -- starts with no second one; the URL has no blanks at its ends; the URL of the website has no
  -- blanks or slashes at its ends; the prefix is one that normalising leaves, `/` or with no slash at
  -- its end, and has no question mark.
  pub redirect-planned :
      (sites : List SubscriptionProxyProfile) (websites : List WebsiteProxyProfile)
      (r : SubscriptionProxyInboundRequest)
      → IsPrefix (normalize_proxy_path_prefix profile.path_prefix)
      → IsSiteUrl
      → (r.path, r.raw_query) ≡ path_and_query given_location
      → IsPicked profile websites r
      → (u : SubscriptionProxyUpstreamRequest) × (plan_subscription_proxy_request sites websites r
          ≡ ok (upstream u))
        × (u.url ≡ site_url)
  redirect-planned sites websites r h k asked picked =
      let prefix = normalize_proxy_path_prefix profile.path_prefix in
      let leads =
        redirect-upstream profile prefix p q h k.no_query k.one_slash k.no_mark k.stable k.trimmed
          k.valid in
      planned profile sites websites r site_url picked (
        ap (λ a. build_website_upstream_url profile (website_proxy_upstream_path prefix a.0) a.1)
          asked
        ∙ leads.1)
