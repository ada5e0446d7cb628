-- ===== src/SubscriptionProxy/Certificate/Validation.antt =====
-- The validation file that src/subscription_proxy.rs writes and the challenge files that it serves.
use kelinode_rs.Prelude.{
  Bool, true, false, not, ◌||◌, Option, none, some, [], ◌∷◌, ◌++◌, if◌then◌else◌, is_empty, last?,
  ◌≡◌, refl, sym, ap, ◌∙◌, arith, if_intro,
}
use kelinode_rs.Prelude.Text.{
  Text, text, text_eq, trim, trim_start, trim_end, strip_prefix, split, has_char,
}
use kelinode_rs.Prelude.Str.{contains}
use kelinode_rs.Prelude.Trimmed.{
  trim_start_kept, trim_again, trim-without, split-without, last?-without, strip_prefix-append,
}
use kelinode_rs.Prelude.Result.{ok, err}
use kelinode_rs.SubscriptionProxy.{
  SubscriptionProxyConfig, SubscriptionProxyInboundRequest, SubscriptionProxyFileWrite,
  SubscriptionProxyRoute, challenge_file, not_found,
}
use kelinode_rs.SubscriptionProxy.Paths.{
  is_slash, last_part, validation_file_name, challenge_request_file_name, join_posix_path,
}
use kelinode_rs.SubscriptionProxy.Route.{
  RouteResult, is_read, upper_method, challenge_dir_of, challenge_name,
  plan_subscription_proxy_http_request,
}
use kelinode_rs.SubscriptionProxy.Certificate.{plan_subscription_proxy_validation_file}

-- The name of a file that lies in a directory itself.
pub record IsFileName (name : Text) : Type 0 where
  pub nonempty : is_empty name ≡ false
  pub no_slash : has_char b'/' name ≡ false
  pub no_backslash : has_char b'\\' name ≡ false

last_part-without : (s : Text) → has_char b'/' (last_part s) ≡ false
last_part-without s = found (last? (split b'/' s)) refl
  where
    found :
        (o : Option Text)
        → last? (split b'/' s) ≡ o
        → has_char b'/' (elim o as (λ _. Text) [ none ↦ [] | some part ↦ part ]) ≡ false
    found none e = refl
    found (some part) e = last?-without b'/' (split b'/' s) part (split-without b'/' s) e

first_and_last : (a b c d : Bool) → (a || (b || (c || d))) ≡ false → (a ≡ false) × (d ≡ false)
first_and_last a b c d h = ground arith

passed :
    (b : Bool) (n name : Text) → (if b then none else some n) ≡ some name → (b ≡ false) × (n ≡ name)
passed true n name h = cc
passed false n name h = (refl, ap (λ o. elim o as (λ _. Text) [ none ↦ [] | some x ↦ x ]) h)

-- A validation file has a name with no directory in it, and the name has no space at its ends.
validation_file_name-IsFileName :
    (path name : Text)
    → validation_file_name path ≡ some name
    → IsFileName name × (trim name ≡ name)
unfolding validation_file_name
validation_file_name-IsFileName path name h =
    let part = last_part (trim_end is_slash (trim path)) in
    let clean = trim-without b'/' part (last_part-without (trim_end is_slash (trim path))) in
    let dot = text_eq (trim part) (text ".") in
    let dots = text_eq (trim part) (text "..") in
    let (checks, same) =
      passed (is_empty (trim part) || (dot || (dots || has_char b'\\' (trim part)))) (trim part)
        name h in
    let (some_name, no_backslash) =
      first_and_last (is_empty (trim part)) dot dots (has_char b'\\' (trim part)) checks in
    (
      record {
        nonempty = ap is_empty (sym same) ∙ some_name;
        no_slash = ap (has_char b'/') (sym same) ∙ clean;
        no_backslash = ap (has_char b'\\') (sym same) ∙ no_backslash;
      },
      ap trim (sym same) ∙ trim_again part ∙ same,
    )

challenge_request_file_name-IsFileName :
    (path name : Text)
    → challenge_request_file_name path ≡ some name
    → IsFileName name × (contains (text "..") name ≡ false)
unfolding challenge_request_file_name
challenge_request_file_name-IsFileName path name h = ground arith

challenge_request_file_name-same :
    (name : Text)
    → IsFileName name
    → trim name ≡ name
    → contains (text "..") name ≡ false
    → challenge_request_file_name name ≡ some name
unfolding challenge_request_file_name
challenge_request_file_name-same name f t d =
    rw (t, challenge_request_file_name, f.nonempty, f.no_slash, d, f.no_backslash) refl

abbrev pub pki_path : Text → Text
pki_path name = text "/.well-known/pki-validation/" ++ name

module _ (config : SubscriptionProxyConfig) (request : SubscriptionProxyInboundRequest) where
  served_name :
      (found : Option Text) (path : Text)
      → elim found as (λ _. RouteResult SubscriptionProxyRoute) [
        | none ↦ err not_found
        | some name ↦ ok (challenge_file (join_posix_path (challenge_dir_of config) name))
      ]
        ≡ ok (challenge_file path)
      → (name : Text) × (found ≡ some name)
        × (join_posix_path (challenge_dir_of config) name ≡ path)
  served_name none path h = cc
  served_name (some name) path h = (name, refl, ground arith)

  planned_name :
      (path : Text)
      → plan_subscription_proxy_http_request config request ≡ ok (challenge_file path)
      → (name : Text) × (challenge_name
            (strip_prefix (text "/.well-known/pki-validation/") request.path)
          ≡ some name)
        × (join_posix_path (challenge_dir_of config) name ≡ path)
  unfolding plan_subscription_proxy_http_request
  planned_name path =
      if_intro Named (not (is_read (upper_method request))) (λ _ h. cc)
        (λ _.
          if_intro Named (text_eq request.path (text "/health")) (λ _ h. cc)
            (λ _ h.
              served_name
                (challenge_name (strip_prefix (text "/.well-known/pki-validation/") request.path))
                path h))
    where
      Named : RouteResult SubscriptionProxyRoute → Type 0
      Named r =
          r ≡ ok (challenge_file path)
          → (name : Text) × (challenge_name
                (strip_prefix (text "/.well-known/pki-validation/") request.path)
              ≡ some name)
            × (join_posix_path (challenge_dir_of config) name ≡ path)

joined :
    (dir name : Text)
    → IsFileName name
    → join_posix_path dir name ≡ trim_end is_slash dir ++ b'/' ∷ name
unfolding join_posix_path trim_start
joined dir [] f = refl
joined dir (c ∷ name) f =
    let plain : is_slash c ≡ false = ground (arith, f.no_slash) in
    ap (λ s. trim_end is_slash dir ++ b'/' ∷ s) (trim_start_kept is_slash c name plain)

-- A file that is served for a request of the CA lies in the challenge directory itself: its name is
-- not empty and has no slash, no backslash and no two dots in a row.
pub challenge_file-IsFileName :
    (config : SubscriptionProxyConfig) (request : SubscriptionProxyInboundRequest) (path : Text)
    → plan_subscription_proxy_http_request config request ≡ ok (challenge_file path)
    → (name : Text) × IsFileName name
      × (contains (text "..") name ≡ false)
      × (path ≡ trim_end is_slash (challenge_dir_of config) ++ b'/' ∷ name)
challenge_file-IsFileName config request path h =
    let (name, found, e) = planned_name config request path h in
    let (raw, named) =
      asked (strip_prefix (text "/.well-known/pki-validation/") request.path) name found in
    let (f, dots) = challenge_request_file_name-IsFileName raw name named in
    (name, f, dots, sym e ∙ joined (challenge_dir_of config) name f)
  where
    asked :
        (o : Option Text) (name : Text)
        → challenge_name o ≡ some name
        → (raw : Text) × (challenge_request_file_name raw ≡ some name)
    asked none name h = cc
    asked (some raw) name h = (raw, h)

validation_write :
    (config : SubscriptionProxyConfig) (w : SubscriptionProxyFileWrite) (name : Text)
    → plan_subscription_proxy_validation_file config ≡ ok (some w)
    → validation_file_name (trim config.zerossl.validation_path) ≡ some name
    → w.path ≡ join_posix_path (challenge_dir_of config) name
unfolding plan_subscription_proxy_validation_file
validation_write config w name h named = ground (arith)

-- The file that is written for a validation is the one that is served for a request of its name by
-- `GET` or `HEAD`, if the name has no two dots in a row.
pub validation_file-served :
    (config : SubscriptionProxyConfig) (request : SubscriptionProxyInboundRequest)
    (w : SubscriptionProxyFileWrite) (name : Text)
    → plan_subscription_proxy_validation_file config ≡ ok (some w)
    → validation_file_name (trim config.zerossl.validation_path) ≡ some name
    → contains (text "..") name ≡ false
    → is_read (upper_method request) ≡ true
    → request.path ≡ pki_path name
    → plan_subscription_proxy_http_request config request ≡ ok (challenge_file w.path)
unfolding plan_subscription_proxy_http_request text_eq
validation_file-served config request w name written named dots read path =
    let (f, trimmed) =
      validation_file_name-IsFileName (trim config.zerossl.validation_path) name named in
    let found : challenge_name (strip_prefix (text "/.well-known/pki-validation/") request.path)
        ≡ some name =
      ap (λ p. challenge_name (strip_prefix (text "/.well-known/pki-validation/") p)) path
      ∙ ap challenge_name (strip_prefix-append (text "/.well-known/pki-validation/") name)
      ∙ challenge_request_file_name-same name f trimmed dots in
    let other : text_eq request.path (text "/health") ≡ false =
      ap (λ p. text_eq p (text "/health")) path in
    rw
      (
        read,
        plan_subscription_proxy_http_request,
        other,
        found,
        validation_write config w name written named,
      )
      refl
