-- ===== src/Gateway/Listener.antt =====
-- Listeners and their validation (crates/fp-domain/src/gateway/listener.rs). The address parsers of the
-- standard library are parameters: `is_ipv4` and `is_ipv6` are whether `parse` succeeds.
use Prim.Native.String.{String}
use flowplane.Base.{
  ℕ, Bool, true, false, not, ◌&&◌, ◌||◌, List, [], ◌∷◌, Option, Text, chars, length, all, any,
  is_empty, ltb, if◌then◌else◌, is_control, is_whitespace, is_blank, is_ascii_digit, len,
  contains_char, contains_text, strip_prefix, split, split_once, starts_with, trim_end, ◌==◌,
  List-Eq, ℕ-Eq,
}
use flowplane.Domain.Error.{DomainResult, validation, with_hint, reject_if, ok_or, ◌>>◌, ◌>>=◌}
use flowplane.Domain.Checks.{if_some, for_each}
use flowplane.Domain.Name.{validate_name}
use flowplane.Gateway.Cluster.Validate.{is_some, is_none}
use flowplane.Gateway.Filters.{HttpFilterEntry}
use flowplane.Gateway.Filters.Security.{IpFamily}
use flowplane.Gateway.Filters.Chain.{validate_filter_chain}
use flowplane.Gateway.RouteConfig.Validate.{valid_label, or_whole}

abbrev pub listener_port_min : ℕ
listener_port_min = 1_024

pub record AccessLogConfig : Type 0 where
  pub path : Text
  pub text_format : Option Text

pub data ListenerProtocol : Type 0 where
  http http2 https : ListenerProtocol

abbrev pub is_https : ListenerProtocol → Bool
is_https https = true
is_https _ = false

pub record ListenerTlsConfig : Type 0 where
  pub cert_chain_file : Option Text
  pub private_key_file : Option Text
  pub ca_cert_file : Option Text
  pub require_client_certificate : Bool
  pub tls_certificate_sds_secret_name : Option Text
  pub validation_context_sds_secret_name : Option Text

pub record ListenerSpec : Type 0 where
  pub address : Text
  pub port : ℕ
  pub public_base_url : Option Text
  pub protocol : ListenerProtocol
  pub route_config : Option Text
  pub http_filters : List HttpFilterEntry
  pub access_logs : List AccessLogConfig
  pub tls_context : Option ListenerTlsConfig

unfoldable pub valid_hostname_body : Text → Bool
unfolding valid_label split
valid_hostname_body body =
    not (is_empty body || ltb 253 (len body) || contains_text body (chars ".."))
    && all valid_label (split 46 body)

unfoldable pub valid_hostname : Text → Bool
unfolding valid_hostname_body
valid_hostname address = valid_hostname_body (or_whole (strip_prefix address (chars "*.")) address)

-- `split('.').next().is_some_and(..)`.
abbrev pub first_is_digits : List Text → Bool
first_is_digits [] = false
first_is_digits (first ∷ labels) = all is_ascii_digit first

unfoldable pub validate_path : String → Text → DomainResult (Unit {0})
validate_path name value = do
  reject_if (is_blank value) (validation "{name} must not be empty")
  reject_if (any is_control value) (validation "{name} must not contain control characters")

unfoldable pub bad_format : Text → Bool
bad_format format = is_empty format || ltb 4_096 (len format) || contains_char 0 format

unfoldable pub validate_access_log : AccessLogConfig → DomainResult (Unit {0})
unfolding validate_path bad_format
validate_access_log log = do
  validate_path "access_log.path" log.path
  if_some log.text_format (λ format.
      reject_if (bad_format format)
        (validation "access_log.text_format must be 1-4096 chars and contain no NUL"))

abbrev pub inline_cert : ListenerTlsConfig → Bool
inline_cert tls = is_some tls.cert_chain_file || is_some tls.private_key_file

unfoldable pub validate_tls : ListenerTlsConfig → DomainResult (Unit {0})
unfolding validate_path
validate_tls tls = do
  reject_if (inline_cert tls && (is_none tls.cert_chain_file || is_none tls.private_key_file))
      (validation "cert_chain_file and private_key_file must be set together")
  reject_if (inline_cert tls && is_some tls.tls_certificate_sds_secret_name) (
      validation "TLS certificate source must be either file paths or an SDS secret name, not both")
  reject_if (not (inline_cert tls) && is_none tls.tls_certificate_sds_secret_name) (
      validation
        "TLS context requires cert_chain_file/private_key_file or tls_certificate_sds_secret_name")
  reject_if (is_some tls.ca_cert_file && is_some tls.validation_context_sds_secret_name) (
      validation
        "validation context source must be either ca_cert_file or validation_context_sds_secret_name, not both")
  reject_if
      (tls.require_client_certificate
        && is_none tls.ca_cert_file
        && is_none tls.validation_context_sds_secret_name)
      (validation
        "require_client_certificate needs ca_cert_file or validation_context_sds_secret_name")
  if_some tls.cert_chain_file (λ path. validate_path "cert_chain_file" path)
  if_some tls.private_key_file (λ path. validate_path "private_key_file" path)
  if_some tls.ca_cert_file (λ path. validate_path "ca_cert_file" path)
  if_some tls.tls_certificate_sds_secret_name validate_name
  if_some tls.validation_context_sds_secret_name validate_name

abbrev pub bad_scheme : Text → Bool
bad_scheme scheme = not (scheme == chars "http") && not (scheme == chars "https")

-- What follows the scheme.
unfoldable pub validate_authority : Text → DomainResult (Unit {0})
unfolding starts_with
validate_authority rest = do
  reject_if
      (is_empty rest
        || starts_with rest (chars "/")
        || starts_with rest (chars "?")
        || starts_with rest (chars "#"))
      (validation "listener public_base_url must include a host")
  reject_if (contains_char 63 rest || contains_char 35 rest)
      (validation "listener public_base_url must not include query or fragment")
  reject_if (contains_char 47 (trim_end 47 rest))
      (validation "listener public_base_url must not include a path")

unfoldable pub validate_public_base_url : Text → DomainResult (Unit {0})
unfolding validate_authority split_once trim_end
validate_public_base_url value = do
  reject_if (ltb 2_048 (len value))
      (validation "listener public_base_url must be at most 2048 characters")
  reject_if (any (λ c. is_whitespace c || is_control c) value)
      (validation "listener public_base_url must not contain whitespace or control characters")
  ok_or (split_once (chars "://") value)
        (validation "listener public_base_url must start with http:// or https://")
      >>= λ (scheme, rest). do
        reject_if (bad_scheme scheme)
            (validation "listener public_base_url must start with http:// or https://")
        validate_authority rest

module _ (is_ipv4 is_ipv6 : Text → Bool) where
  -- An address whose first label is all digits is an IPv4 address or nothing.
  unfoldable pub address_ok : Text → Bool
  unfolding valid_hostname
  address_ok address =
      if contains_char 58 address && is_ipv6 address
      then true
      else if first_is_digits (split 46 address)
      then is_ipv4 address
      else valid_hostname address

module _ (is_ipv4 is_ipv6 : Text → Bool) (ip_family : Text → Option IpFamily)
    (parse_u8 : Text → Option ℕ) where
  unfoldable pub validate_listener : ListenerSpec → DomainResult (Unit {0})
  unfolding address_ok validate_public_base_url validate_tls validate_access_log
      validate_filter_chain
  validate_listener spec = do
    reject_if (not (address_ok is_ipv4 is_ipv6 spec.address)) (
        with_hint (validation "\"{}\" is not a valid listener address")
          "use an IPv4 address, bare IPv6, or hostname (e.g. 0.0.0.0)")
    reject_if (ltb spec.port listener_port_min) (
        validation
          "listener port must be >= {LISTENER_PORT_MIN} (privileged ports are forbidden), got {}")
    if_some spec.public_base_url validate_public_base_url
    if_some spec.route_config validate_name
    reject_if (is_https spec.protocol && is_none spec.tls_context)
        (validation "https listener protocol requires tls_context")
    if_some spec.tls_context validate_tls
    reject_if (ltb 8 (length spec.access_logs))
        (validation "listener access_logs must contain at most 8 entries")
    for_each validate_access_log spec.access_logs
    validate_filter_chain ip_family parse_u8 spec.http_filters
