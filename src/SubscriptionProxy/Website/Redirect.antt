-- ===== src/SubscriptionProxy/Website/Redirect.antt =====
-- A redirect of a website that src/subscription_proxy.rs rewrites, followed through the proxy.
use kelinode_rs.Prelude.{
  true, false, Option, none, some, [], ◌∷◌, ◌++◌, append_assoc, append-nil, ◌==◌, if◌then◌else◌,
  is_empty, ◌≡◌, refl, sym, ap, ◌∙◌, ◌⊎◌, arith, Bool-cases, inl, inr,
}
use kelinode_rs.Prelude.Text.{
  Text, text, text_eq, text_eq_iff, trim, trim_start, trim_end, trim_matches, starts_with,
  strip_prefix, has_char, is_whitespace,
}
use kelinode_rs.Prelude.Trimmed.{
  trim_start_kept, trim_end_first, strip_prefix-append, split_once_at, split_once-none,
}
use kelinode_rs.Prelude.Split.{has_char-append}
use kelinode_rs.Prelude.Result.{ok}
use kelinode_rs.SubscriptionProxy.{WebsiteProxyProfile, WebsiteProxyRewriteContext}
use kelinode_rs.SubscriptionProxy.Paths.{
  is_slash, starts_with_slash, first_non_empty, trim_trailing_slashes, normalize_proxy_path_prefix,
  is_valid_upstream_base_url,
}
use kelinode_rs.SubscriptionProxy.Http.{path_and_query}
use kelinode_rs.SubscriptionProxy.Headers.{
  rewrite_website_location, prefixed_proxy_path, prefixed, is_at_end, rewrite_path,
}
use kelinode_rs.SubscriptionProxy.Website.{
  website_proxy_path_matches, website_proxy_upstream_path, build_website_upstream_url, add_query,
  website_url,
}

-- A path that starts with `/` is not blank.
rooted-ne-blank : (s : Text) → is_empty (trim (b'/' ∷ s)) ≡ false
unfolding trim trim_matches is_whitespace
rooted-ne-blank s =
    let (t, e) = trim_end_first is_whitespace b'/' s refl in
    ap (λ x. is_empty (trim_end is_whitespace x)) (trim_start_kept is_whitespace b'/' s refl)
    ∙ ap is_empty e

unslashed : (s : Text) → starts_with_slash s ≡ false → trim_start is_slash s ≡ s
unfolding trim_start
unslashed [] h = refl
unslashed (c ∷ s) h = ground arith

-- A query as it stands in a URL.
abbrev pub query_text : Text → Text
query_text q = if is_empty q then [] else b'?' ∷ q

without_query : (path : Text) → has_char b'?' path ≡ false → path_and_query path ≡ (path, [])
unfolding path_and_query
without_query path h = rw (split_once-none b'?' path h, path_and_query) refl

path_and_query_lem :
    (path q : Text) → has_char b'?' path ≡ false → path_and_query (path ++ query_text q) ≡ (path, q)
unfolding path_and_query
path_and_query_lem path [] h = ap path_and_query (append-nil path) ∙ without_query path h
path_and_query_lem path (c ∷ q) h = rw (split_once_at b'?' path (c ∷ q) h, path_and_query) refl

add_query_lem :
    (url q : Text) → starts_with (text "?") q ≡ false → add_query url q ≡ url ++ query_text q
add_query_lem url [] h = unfold trim_start in sym (append-nil url)
add_query_lem url (c ∷ q) h = rw (trim_start_kept (λ d. d == b'?') c q (ground arith)) refl

-- A prefix under which a website is served.
pub record IsPrefix (prefix : Text) : Type 0 where
  pub normal : normalize_proxy_path_prefix prefix ≡ prefix
  pub no_query : has_char b'?' prefix ≡ false
  pub no_end : (prefix ≡ text "/") ⊎ (trim_end is_slash prefix ≡ prefix)

-- What the proxy asks for when a client follows a path below the prefix.
record Leads (prefix path upstream_path : Text) : Type 0 where
  matches : website_proxy_path_matches prefix path ≡ true
  upstream : website_proxy_upstream_path prefix path ≡ upstream_path
  no_query : has_char b'?' path ≡ false

module _ (prefix p : Text) (h : IsPrefix prefix) (no_query : has_char b'?' p ≡ false) where
  root-Leads : prefix ≡ text "/" → Leads prefix (b'/' ∷ p) (b'/' ∷ p)
  unfolding website_proxy_path_matches website_proxy_upstream_path
  root-Leads e =
      let same : text_eq prefix (text "/") ≡ true = (text_eq_iff prefix (text "/")).1 e in
      record { matches = rw same refl; upstream = rw same refl; no_query = no_query }

  whole-Leads : text_eq prefix (text "/") ≡ false → Leads prefix prefix (text "/")
  unfolding website_proxy_path_matches website_proxy_upstream_path
  whole-Leads other =
      let e : strip_prefix prefix prefix ≡ some [] =
        ap (strip_prefix prefix) (sym (append-nil prefix)) ∙ strip_prefix-append prefix [] in
      record {
        matches = rw (other, (text_eq_iff prefix prefix).1 refl) refl;
        upstream = rw (other, e) refl;
        no_query = h.no_query;
      }

  below-Leads : text_eq prefix (text "/") ≡ false → Leads prefix (prefix ++ b'/' ∷ p) (b'/' ∷ p)
  unfolding website_proxy_path_matches website_proxy_upstream_path
  below-Leads other =
      let e = strip_prefix-append prefix (b'/' ∷ p) in
      record {
        matches = rw (other, e) (ground arith);
        upstream = rw (other, e) refl;
        no_query = has_char-append b'?' prefix (b'/' ∷ p) h.no_query no_query;
      }

unslashed_target :
    (p q : Text) → starts_with_slash p ≡ false → starts_with_slash (p ++ query_text q) ≡ false
unslashed_target [] [] h = refl
unslashed_target [] (c ∷ q) h = refl
unslashed_target (c ∷ p) q h = h

website_url_lem :
    (base p : Text) → starts_with_slash p ≡ false → website_url base (b'/' ∷ p) ≡ base ++ b'/' ∷ p
unfolding text_eq trim_start
website_url_lem base [] h = refl
website_url_lem base (c ∷ p) h = ap (λ s. base ++ b'/' ∷ s) (unslashed (c ∷ p) h)

-- No path and no query.
nothing_left :
    (p q : Text) → text_eq (b'/' ∷ (p ++ query_text q)) (text "/") ≡ true → (p ≡ []) × (q ≡ [])
unfolding text_eq
nothing_left [] [] h = (refl, refl)
nothing_left [] (c ∷ q) h = cc
nothing_left (c ∷ p) q h = cc

-- A redirect of the website at `base` to the path `p` and the query `q`.
module _ (profile : WebsiteProxyProfile) (prefix p q : Text) (h : IsPrefix prefix)
    (no_query : has_char b'?' p ≡ false) (no_slash : starts_with_slash p ≡ false)
    (no_mark : starts_with (text "?") q ≡ false) where
  abbrev base : Text
  base = trim_trailing_slashes (trim profile.upstream_base_url)

  abbrev target : Text
  target = b'/' ∷ (p ++ query_text q)

  abbrev context : WebsiteProxyRewriteContext
  context = record { upstream_base_url = base; proxy_path_prefix = prefix }

  -- The location that the client gets is a path that leads back, with the query.
  abbrev LeadsBack : Text → Type 0
  LeadsBack location =
      (path : Text) × Leads prefix path (b'/' ∷ p) × (location ≡ path ++ query_text q)

  below_root : text_eq prefix (text "/") ≡ true → LeadsBack (prefixed prefix target)
  below_root same = (
    b'/' ∷ p,
    root-Leads prefix p h no_query ((text_eq_iff prefix (text "/")).0 same),
    rw same refl,
  )

  below_prefix :
      text_eq prefix (text "/") ≡ false
      → trim_end is_slash prefix ≡ prefix
      → LeadsBack (prefixed prefix target)
  unfolding trim_start
  below_prefix other ends = elim (Bool-cases (text_eq target (text "/"))) [
    | inl whole ↦
        let (no_p, no_q) = nothing_left p q whole in
        (
          prefix,
          rw no_p (whole-Leads prefix p h no_query other),
          rw (other, whole, no_q) (sym (append-nil prefix)),
        )
    | inr more ↦ (
      prefix ++ b'/' ∷ p,
      below-Leads prefix p h no_query other,
      rw (other, more, ends, unslashed (p ++ query_text q) (unslashed_target p q no_slash))
          (sym (append_assoc prefix (b'/' ∷ p) (query_text q))),
    )
  ]

  prefixed-LeadsBack : LeadsBack (prefixed prefix target)
  prefixed-LeadsBack = elim (Bool-cases (text_eq prefix (text "/"))) [
    | inl same ↦ below_root same
    | inr other ↦ elim h.no_end [
      | inl e ↦ cc ((text_eq_iff prefix (text "/")).1 e)
      | inr ends ↦ below_prefix other ends
    ]
  ]

  -- The choice that the rewriting makes.
  abbrev located : Text → Text → Text → Text
  located b pre value = elim (strip_prefix b value) [
    | none ↦ rewrite_path pre value
    | some rest ↦
        if is_at_end rest
        then prefixed_proxy_path pre (first_non_empty rest (text "/"))
        else rewrite_path pre value
  ]

  location_lem :
      trim_trailing_slashes (trim base) ≡ base
      → trim (base ++ target) ≡ base ++ target
      → rewrite_website_location (base ++ target) context ≡ prefixed prefix target
  unfolding rewrite_website_location prefixed_proxy_path
  location_lem stable trimmed =
      let normal = normalize_proxy_path_prefix prefix in
      ap (λ b. located b normal (trim (base ++ target))) stable
      ∙ ap (λ x. located base x (trim (base ++ target))) h.normal
      ∙ ap (λ v. located base prefix v) trimmed
      ∙ ap
          (λ (o : Option Text). elim o as (λ _. Text) [
            | none ↦ rewrite_path prefix (base ++ target)
            | some rest ↦
                if is_at_end rest
                then prefixed_proxy_path prefix (first_non_empty rest (text "/"))
                else rewrite_path prefix (base ++ target)
          ])
          (strip_prefix-append base target)
      ∙ ap (λ b. prefixed prefix (if b then text "/" else target))
          (rooted-ne-blank (p ++ query_text q))

  url_lem :
      is_valid_upstream_base_url base ≡ true
      → build_website_upstream_url profile (b'/' ∷ p) q ≡ ok (base ++ target)
  unfolding build_website_upstream_url
  url_lem valid =
      rw (valid, rooted-ne-blank p)
        (ap ok (
          add_query_lem (website_url base (b'/' ∷ p)) q no_mark
          ∙ ap (λ s. s ++ query_text q) (website_url_lem base p no_slash)
          ∙ append_assoc base (b'/' ∷ p) (query_text q)))

  -- The rewritten location of a redirect of the website to a URL of its own, whose path does not start
  -- with two slashes, is below the prefix, and the website's URL for it is the same again.
  pub redirect-upstream :
      trim_trailing_slashes (trim base) ≡ base
      → trim (base ++ target) ≡ base ++ target
      → is_valid_upstream_base_url base ≡ true
      → let asked = path_and_query (rewrite_website_location (base ++ target) context) in
        (website_proxy_path_matches prefix asked.0 ≡ true)
        × (build_website_upstream_url profile (website_proxy_upstream_path prefix asked.0) asked.1
            ≡ ok (base ++ target))
  redirect-upstream stable trimmed valid =
      let (path, leads, e) = prefixed-LeadsBack in
      let asked : path_and_query (rewrite_website_location (base ++ target) context) ≡ (path, q) =
        ap path_and_query (location_lem stable trimmed ∙ e)
        ∙ path_and_query_lem path q leads.no_query in
      (
        ap (λ a. website_proxy_path_matches prefix a.0) asked ∙ leads.matches,
        ap (λ a. build_website_upstream_url profile (website_proxy_upstream_path prefix a.0) a.1)
              asked
            ∙ ap (λ s. build_website_upstream_url profile s q) leads.upstream
            ∙ url_lem valid,
      )
