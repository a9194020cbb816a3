-- ===== src/Gateway/Listeners.antt =====
-- Which listeners are accepted: TLS sources, base URLs, access logs and the filter chain.
use Prim.Native.String.{String}
use flowplane.Base.{
  ℕ, ◌≤◌, ◌≡◌, ◌↔◌, ◌⊎◌, refl, subst, Bool, true, false, not, ◌&&◌, ◌||◌, Option, none, some, Text,
  chars, length, is_empty, All, len, is_blank, is_control, is_whitespace, contains_char,
  starts_with, trim_end, split_once, any_none, as_bytes, inl, inr, arith,
}
use flowplane.Domain.Error.{DomainError, DomainResult, ok, ok_or, ◌>>=◌}
use flowplane.Domain.Checks.{
  Given, ◌&◌, both, passes, if_present, each, neither, none_of_three, none_of_four, holds, is_false,
  at_most,
}
use flowplane.Domain.Grammar.{IsName, validate_name_iff}
use flowplane.Gateway.Cluster.Validate.{is_some, is_none}
use flowplane.Gateway.Filters.Security.{IpFamily}
use flowplane.Gateway.Scopes.{IsChain, validate_filter_chain_iff}
use flowplane.Gateway.RouteRules.{IsScheme, IsScheme-iff, at_least}
use flowplane.Gateway.Listener.{
  listener_port_min, AccessLogConfig, is_https, ListenerTlsConfig, ListenerSpec, validate_path,
  validate_access_log, validate_tls, validate_authority, validate_public_base_url, address_ok,
  validate_listener,
}

abbrev pub IsFilePath : Text → Type 0
IsFilePath path = (is_blank path ≡ false) × All (λ c. is_control c ≡ false) path

IsFilePath-iff : (name : String) (path : Text) → (validate_path name path ≡ ok tt) ↔ IsFilePath path
unfolding validate_path
IsFilePath-iff name path =
    both (passes _ _ (is_false (is_blank path))) (passes _ _ (any_none is_control path))

abbrev pub IsAccessLog : AccessLogConfig → Type 0
IsAccessLog log =
    IsFilePath log.path
    × Given log.text_format
        (λ f. (is_empty f ≡ false) & (len f ≤ 4_096) & (contains_char 0 f ≡ false))

IsAccessLog-iff : (log : AccessLogConfig) → (validate_access_log log ≡ ok tt) ↔ IsAccessLog log
unfolding validate_access_log
IsAccessLog-iff log = both (IsFilePath-iff "access_log.path" log.path) (
    if_present log.text_format (λ f. passes _ _ (
      none_of_three (is_false (is_empty f)) (at_most (len f) 4_096)
        (is_false (contains_char 0 f)))))

-- One source of the certificate: both files, or a secret.
abbrev pub OneSource : Bool → Bool → Bool → Type 0
OneSource cert key secret =
    ((cert ≡ true) × (key ≡ true) × (secret ≡ false))
    ⊎ ((cert ≡ false) × (key ≡ false) × (secret ≡ true))

abbrev Unmixed : Bool → Bool → Bool → Type 0
Unmixed cert key secret =
    (((cert || key) && (not cert || not key)) ≡ false)
    × (((cert || key) && secret) ≡ false)
    × ((not (cert || key) && not secret) ≡ false)

one_source : (cert key secret : Bool) → Unmixed cert key secret ↔ OneSource cert key secret
one_source true true true =
    (λ (a, b, c). cc, λ h. elim h [ inl (a, b, c) ↦ cc | inr (a, b, c) ↦ cc ])
one_source true true false = (λ h. inl (refl, refl, refl), λ h. (refl, refl, refl))
one_source true false s = (λ (a, b, c). cc, λ h. elim h [ inl (a, b, c) ↦ cc | inr (a, b, c) ↦ cc ])
one_source false true s = (λ (a, b, c). cc, λ h. elim h [ inl (a, b, c) ↦ cc | inr (a, b, c) ↦ cc ])
one_source false false true = (λ h. inr (refl, refl, refl), λ h. (refl, refl, refl))
one_source false false false =
    (λ (a, b, c). cc, λ h. elim h [ inl (a, b, c) ↦ cc | inr (a, b, c) ↦ cc ])

-- A client certificate can be required only where one source of trust is given.
abbrev pub IsTlsContext : ListenerTlsConfig → Type 0
IsTlsContext tls =
    OneSource (is_some tls.cert_chain_file) (is_some tls.private_key_file)
      (is_some tls.tls_certificate_sds_secret_name)
    & ((is_some tls.ca_cert_file && is_some tls.validation_context_sds_secret_name) ≡ false)
    & ((tls.require_client_certificate
          && is_none tls.ca_cert_file
          && is_none tls.validation_context_sds_secret_name)
        ≡ false)
    & Given tls.cert_chain_file IsFilePath
    & Given tls.private_key_file IsFilePath
    & Given tls.ca_cert_file IsFilePath
    & Given tls.tls_certificate_sds_secret_name (λ name. IsName (as_bytes name))
    & Given tls.validation_context_sds_secret_name (λ name. IsName (as_bytes name))

-- A TLS context is accepted exactly when its certificate comes from both files or from a secret and not
-- from both, at most one source of trust is given, one if client certificates are required, and the
-- paths and names are well-formed.
pub validate_tls_iff : (tls : ListenerTlsConfig) → (validate_tls tls ≡ ok tt) ↔ IsTlsContext tls
unfolding validate_tls
validate_tls_iff tls =
    let cert = is_some tls.cert_chain_file in
    let key = is_some tls.private_key_file in
    let secret = is_some tls.tls_certificate_sds_secret_name in
    let (f, g) = one_source cert key secret in
    let (out, back) = both (passes _ _ (is_false ((cert || key) && (not cert || not key)))) (
      both (passes _ _ (is_false ((cert || key) && secret))) (
        both (passes _ _ (is_false (not (cert || key) && not secret))) (
          both
            (passes _ _ (
              is_false
                (is_some tls.ca_cert_file && is_some tls.validation_context_sds_secret_name)))
            (both
              (passes _ _ (
                is_false (
                  tls.require_client_certificate
                  && is_none tls.ca_cert_file
                  && is_none tls.validation_context_sds_secret_name)))
              (both (if_present tls.cert_chain_file (IsFilePath-iff "cert_chain_file")) (
                both (if_present tls.private_key_file (IsFilePath-iff "private_key_file")) (
                  both (if_present tls.ca_cert_file (IsFilePath-iff "ca_cert_file")) (
                    both (if_present tls.tls_certificate_sds_secret_name validate_name_iff) (
                      if_present tls.validation_context_sds_secret_name
                        validate_name_iff))))))))) in
    (
      λ h. let (a, (b, (c, rest))) = out h in (f (a, b, c), rest),
      λ (s, rest). let (a, b, c) = g s in back (a, (b, (c, rest))),
    )

-- A host, and a slash at most after it.
abbrev pub IsAuthority : Text → Type 0
IsAuthority rest =
    ((is_empty rest ≡ false)
      & (starts_with rest (chars "/") ≡ false)
      & (starts_with rest (chars "?") ≡ false)
      & (starts_with rest (chars "#") ≡ false))
    & ((contains_char 63 rest ≡ false) × (contains_char 35 rest ≡ false))
    & (contains_char 47 (trim_end 47 rest) ≡ false)

IsAuthority-iff : (rest : Text) → (validate_authority rest ≡ ok tt) ↔ IsAuthority rest
unfolding validate_authority
IsAuthority-iff rest =
    both
      (passes _ _ (
        none_of_four (is_false (is_empty rest)) (is_false (starts_with rest (chars "/")))
          (is_false (starts_with rest (chars "?"))) (is_false (starts_with rest (chars "#")))))
      (both
        (passes _ _ (neither (is_false (contains_char 63 rest)) (is_false (contains_char 35 rest))))
        (passes _ _ (is_false (contains_char 47 (trim_end 47 rest)))))

module _ {A : Type 0} {P : A → Type 0} {k : A → DomainResult (Unit {0})} where
  -- The part that is looked for is there, and what follows accepts it.
  looked_up :
      (o : Option A) (e : DomainError)
      → ((a : A) → (k a ≡ ok tt) ↔ P a)
      → ((ok_or o e >>= k) ≡ ok tt) ↔ ((a : A) × (o ≡ some a) × P a)
  looked_up none e f = (λ h. cc, λ (a, found, p). cc)
  looked_up (some a) e f =
      (λ h. (a, refl, (f a).0 h), λ (b, found, p). (f a).1 (subst P (ground arith) p))

abbrev pub IsUrl : Text × Text → Type 0
IsUrl (scheme, rest) = IsScheme scheme & IsAuthority rest

abbrev pub IsBaseUrl : Text → Type 0
IsBaseUrl value =
    (len value ≤ 2_048)
    & All (λ c. (is_whitespace c || is_control c) ≡ false) value
    & ((parts : Text × Text) × (split_once (chars "://") value ≡ some parts) × IsUrl parts)

IsBaseUrl-iff : (value : Text) → (validate_public_base_url value ≡ ok tt) ↔ IsBaseUrl value
unfolding validate_public_base_url
IsBaseUrl-iff value = both (passes _ _ (at_most (len value) 2_048)) (
    both (passes _ _ (any_none (λ c. is_whitespace c || is_control c) value)) (
      looked_up (split_once (chars "://") value) _
        (λ (scheme, rest). both (passes _ _ (IsScheme-iff scheme)) (IsAuthority-iff rest))))

module _ (is_ipv4 is_ipv6 : Text → Bool) (ip_family : Text → Option IpFamily)
    (parse_u8 : Text → Option ℕ) where
  abbrev pub IsListener : ListenerSpec → Type 0
  IsListener spec =
      (address_ok is_ipv4 is_ipv6 spec.address ≡ true)
      & (1_024 ≤ spec.port)
      & Given spec.public_base_url IsBaseUrl
      & Given spec.route_config (λ name. IsName (as_bytes name))
      & ((is_https spec.protocol && is_none spec.tls_context) ≡ false)
      & Given spec.tls_context IsTlsContext
      & (length spec.access_logs ≤ 8)
      & All IsAccessLog spec.access_logs
      & IsChain ip_family parse_u8 spec.http_filters

  -- A listener is accepted exactly when its address is one, its port is not privileged, HTTPS comes with
  -- a TLS context, there are at most 8 access logs, and each part it names is well-formed, the filter
  -- chain included.
  pub validate_listener_iff :
      (spec : ListenerSpec)
      → (validate_listener is_ipv4 is_ipv6 ip_family parse_u8 spec ≡ ok tt) ↔ IsListener spec
  unfolding validate_listener
  validate_listener_iff spec = both (passes _ _ (holds (address_ok is_ipv4 is_ipv6 spec.address))) (
      both (passes _ _ (at_least spec.port listener_port_min)) (
        both (if_present spec.public_base_url IsBaseUrl-iff) (
          both (if_present spec.route_config validate_name_iff) (
            both (passes _ _ (is_false (is_https spec.protocol && is_none spec.tls_context))) (
              both (if_present spec.tls_context validate_tls_iff) (
                both (passes _ _ (at_most (length spec.access_logs) 8)) (
                  both (each spec.access_logs IsAccessLog-iff)
                    (validate_filter_chain_iff ip_family parse_u8 spec.http_filters))))))))
