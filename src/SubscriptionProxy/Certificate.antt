-- ===== src/SubscriptionProxy/Certificate.antt =====
-- The certificate of the proxy in src/subscription_proxy.rs: the files that are written for it, the
-- plan of its request, and its state in the status. The file system, openssl and the reader of
-- certificates are the operations of `Files` over a state.
pub mod Validation
use kelinode_rs.Prelude.{
  ℕ, Bool, true, false, not, ◌&&◌, ◌||◌, Option, none, some, List, [], ◌∷◌, ◌++◌, leb, ◌==◌,
  if◌then◌else◌, is_empty, any, all, last?,
}
use kelinode_rs.Prelude.Text.{Text, text, trim, split, starts_with, is_alphanumeric, len}
use kelinode_rs.Prelude.Str.{is_control, trim_start_text}
use kelinode_rs.Prelude.Result.{Result, ok, err, ◌>>=◌}
use kelinode_rs.SubscriptionProxy.{
  SubscriptionProxyConfig, SubscriptionProxyProfile, SubscriptionProxyStatus,
  SubscriptionProxyFileWrite, SubscriptionProxyServeMode, https, http_fallback,
  SubscriptionProxyCsrPlan,
}
use kelinode_rs.SubscriptionProxy.Paths.{
  first_non_empty, validation_file_name, join_posix_path, validation_content_string,
}
use kelinode_rs.SubscriptionProxy.Route.{challenge_dir_of}

pub record Files (E : Type 0) : Type 0 where
  -- The end of a certificate's validity, or the empty text.
  pub certificate_not_after : Text → E → Text × E
  -- The request for a key file and a domain.
  pub ensure_csr : Text → Text → E → Result Text Text × E
  pub file_readable : Text → E → Bool × E
  pub write_file : SubscriptionProxyFileWrite → E → Result Text (Unit {0}) × E

pub data FileError : Type 0 where
  invalid_validation_path : Text → FileError
  empty_cert_file : FileError
  other : Text → FileError

unfoldable pub plan_subscription_proxy_validation_file :
    SubscriptionProxyConfig → Result FileError (Option SubscriptionProxyFileWrite)
plan_subscription_proxy_validation_file config =
    let validation_path = trim config.zerossl.validation_path in
    let validation_content = trim config.zerossl.validation_content in
    if is_empty validation_path || is_empty validation_content
    then ok none
    else elim (validation_file_name validation_path) [
      | none ↦ err (invalid_validation_path validation_path)
      | some file_name ↦ ok (
          some (record {
            path = join_posix_path (challenge_dir_of config) file_name;
            content = validation_content_string validation_content;
            mode = 0o644;
          }))
    ]

unfoldable pub plan_subscription_proxy_certificate_file :
    SubscriptionProxyConfig → Result FileError (Option SubscriptionProxyFileWrite)
plan_subscription_proxy_certificate_file config =
    let certificate = trim config.zerossl.certificate_pem in
    let cert_file = trim config.cert_file in
    let ca_bundle = trim config.zerossl.ca_bundle_pem in
    if is_empty certificate
    then ok none
    else if is_empty cert_file
    then err empty_cert_file
    else ok (
        some (record {
          path = cert_file;
          content =
              certificate
              ++ ((if is_empty ca_bundle then [] else text "\n" ++ ca_bundle) ++ text "\n");
          mode = 0o644;
        }))

pub data CertificateError : Type 0 where
  empty_key_file empty_domain : CertificateError
  invalid_domain : Text → CertificateError

abbrev is_forbidden : ℕ → Bool
is_forbidden c = is_control c || (c == b'/' || (c == b',' || c == b'\\'))

unfoldable pub normalize_certificate_name : Text → Result CertificateError Text
normalize_certificate_name value =
    let name = trim value in
    if is_empty name
    then err empty_domain
    else if any is_forbidden name
    then err (invalid_domain name)
    else ok name

abbrev ends_with_dash : Text → Bool
ends_with_dash label = elim (last? label) [ none ↦ false | some c ↦ c == b'-' ]

abbrev is_label : Text → Bool
is_label label =
    not (is_empty label)
    && (leb (len label) 63
        && (all (λ c. is_alphanumeric c || c == b'-') label
            && (not (starts_with (text "-") label) && not (ends_with_dash label))))

unfoldable pub is_valid_dns_certificate_name : Text → Bool
is_valid_dns_certificate_name raw =
    let name = trim_start_text (text "*.") (trim raw) in
    not (is_empty name) && (leb (len name) 253 && all is_label (split b'.' name))

-- `parse::<IpAddr>` and the printing of the address, a parameter.
module _ (parse_ip : Text → Option Text) where
  unfoldable pub certificate_subject_alt_name : Text → Result CertificateError Text
  certificate_subject_alt_name name = elim (parse_ip name) [
    | some ip ↦ ok (text "IP:" ++ ip)
    | none ↦
        if is_valid_dns_certificate_name name
        then ok (text "DNS:" ++ name)
        else err (invalid_domain name)
  ]

  abbrev subject_plan : Text → Bool → Text → Text → Result CertificateError SubscriptionProxyCsrPlan
  subject_plan key_file key_exists common_name subject_alt_name = ok (record {
    key_file = key_file;
    common_name = common_name;
    subject_alt_name = subject_alt_name;
    generate_key = not key_exists;
  })

  abbrev csr_plan : Text → Text → Bool → Result CertificateError SubscriptionProxyCsrPlan
  csr_plan key_file certificate_domain key_exists = do
    common_name ← normalize_certificate_name certificate_domain
    subject_alt_name ← certificate_subject_alt_name common_name
    subject_plan key_file key_exists common_name subject_alt_name

  unfoldable pub plan_subscription_proxy_csr :
      Text → Text → Bool → Result CertificateError SubscriptionProxyCsrPlan
  plan_subscription_proxy_csr raw_key_file certificate_domain key_exists =
      let key_file = trim raw_key_file in
      if is_empty key_file
      then err empty_key_file
      else csr_plan key_file certificate_domain key_exists

unfoldable pub subscription_proxy_certificate_owner_site_id : List SubscriptionProxyProfile → Text
subscription_proxy_certificate_owner_site_id [] = []
subscription_proxy_certificate_owner_site_id (profile ∷ profiles) =
    let rest = subscription_proxy_certificate_owner_site_id profiles in
    if not (is_empty (trim profile.site_id)) then trim profile.site_id else rest

-- `SubscriptionProxyStatus::default()`
abbrev pub default_status : SubscriptionProxyStatus
default_status = record {
  status = [];
  enabled = false;
  running = false;
  mode = [];
  https_listen = [];
  profiles = 0;
  website_profiles = 0;
  certificate_domain = [];
  certificate_owner_site_id = [];
  certificate_id = [];
  need_certificate = false;
  csr_pem = [];
  validation_ready = false;
  cert_not_after = [];
  last_error = [];
}

abbrev pub message_of : FileError → Text
message_of (invalid_validation_path path) = text "invalid validation path: " ++ path
message_of empty_cert_file = text "subscription proxy cert file is empty"
message_of (other e) = e

module _ {E : Type 0} (files : Files E) where
  unfoldable pub subscription_proxy_cert_not_after : Text → Text → E → Text × E
  subscription_proxy_cert_not_after cert_file expires_at e =
      let (found, e') = files.certificate_not_after cert_file e in
      (first_non_empty (trim found) (trim expires_at), e')

  abbrev first_status : SubscriptionProxyConfig → E → SubscriptionProxyStatus × E
  first_status config e =
      let (not_after, e') =
        subscription_proxy_cert_not_after (trim config.cert_file) config.zerossl.expires_at e in
      (
        record default_status {
          certificate_domain = trim config.certificate_domain;
          certificate_id = trim config.zerossl.certificate_id;
          cert_not_after = not_after;
        },
        e',
      )

  -- `!file_readable(cert_file) || !file_readable(key_file)`
  abbrev both_readable : Text → Text → E → Bool × E
  both_readable cert_file key_file e =
      let (cert, e1) = files.file_readable cert_file e in
      let (key, e2) = files.file_readable key_file e1 in if cert then (key, e2) else (false, e1)

  abbrev needs_certificate :
      SubscriptionProxyConfig → SubscriptionProxyStatus × E → SubscriptionProxyStatus × E
  needs_certificate config (status, e) =
      let (readable, e') = both_readable (trim config.cert_file) (trim config.key_file) e in
      (record status { need_certificate = status.need_certificate || not readable }, e')

  abbrev with_csr :
      SubscriptionProxyConfig
      → SubscriptionProxyStatus
      → Result Text Text × E
      → SubscriptionProxyStatus × E
  with_csr config status (err error, e) = (record status { last_error = error }, e)
  with_csr config status (ok csr_pem, e) =
      needs_certificate config (record status { csr_pem = csr_pem }, e)

  -- The part that both functions end with.
  unfoldable pub certificate_request :
      SubscriptionProxyConfig → SubscriptionProxyStatus × E → SubscriptionProxyStatus × E
  certificate_request config (status, e) =
      let domain = trim config.certificate_domain in
      if is_empty domain
      then (status, e)
      else with_csr config status (files.ensure_csr (trim config.key_file) domain e)

  unfoldable pub prepare_subscription_proxy_certificate_status :
      SubscriptionProxyConfig → E → SubscriptionProxyStatus × E
  prepare_subscription_proxy_certificate_status config e =
      certificate_request config (first_status config e)

  abbrev validation_written :
      SubscriptionProxyStatus → Result Text (Unit {0}) × E → SubscriptionProxyStatus × E
  validation_written status (ok _, e) = (record status { validation_ready = true }, e)
  validation_written status (err error, e) = (record status { last_error = error }, e)

  unfoldable pub write_validation :
      SubscriptionProxyConfig → SubscriptionProxyStatus × E → SubscriptionProxyStatus × E
  write_validation config (status, e) =
      elim (plan_subscription_proxy_validation_file config) as (λ _. SubscriptionProxyStatus × E) [
        | ok none ↦ (status, e)
        | ok (some write) ↦ validation_written status (files.write_file write e)
        | err error ↦ (record status { last_error = message_of error }, e)
      ]

  abbrev certificate_written :
      SubscriptionProxyConfig
      → SubscriptionProxyStatus
      → Result Text (Unit {0}) × E
      → SubscriptionProxyStatus × E
  certificate_written config status (ok _, e) =
      let (not_after, e') =
        subscription_proxy_cert_not_after (trim config.cert_file) config.zerossl.expires_at e in
      (record status { cert_not_after = not_after }, e')
  certificate_written config status (err error, e) = (record status { last_error = error }, e)

  unfoldable pub write_certificate :
      SubscriptionProxyConfig → SubscriptionProxyStatus × E → SubscriptionProxyStatus × E
  write_certificate config (status, e) =
      elim (plan_subscription_proxy_certificate_file config) as (λ _. SubscriptionProxyStatus × E) [
        | ok none ↦ (status, e)
        | ok (some write) ↦ certificate_written config status (files.write_file write e)
        | err error ↦ (record status { last_error = message_of error }, e)
      ]

  unfoldable pub prepare_subscription_proxy_certificate_status_with_file_writes :
      SubscriptionProxyConfig → E → SubscriptionProxyStatus × E
  prepare_subscription_proxy_certificate_status_with_file_writes config e =
      certificate_request config
        (write_certificate config (write_validation config (first_status config e)))

  -- The error is the message with the two paths.
  unfoldable pub plan_subscription_proxy_serve_mode :
      SubscriptionProxyConfig → E → Result Text SubscriptionProxyServeMode × E
  plan_subscription_proxy_serve_mode config e =
      let cert_file = trim config.cert_file in
      let key_file = trim config.key_file in
      let (readable, e') = both_readable cert_file key_file e in
      if readable
      then (ok https, e')
      else if config.allow_http_fallback
      then (ok http_fallback, e')
      else (
        err (
            text "subscription proxy certificate files are not readable: cert="
            ++ (cert_file ++ (text " key=" ++ key_file))),
        e',
      )
