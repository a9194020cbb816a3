-- ===== src/Gateway/Filters/Validate.antt =====
-- The validation of HTTP filters and overrides (crates/fp-domain/src/gateway/filters.rs). The parsers
-- of the standard library are parameters: `ip_family` is `parse::<IpAddr>`, as far as the code reads
-- it, and `parse_u8` is `parse::<u8>`.
use Prim.Native.String.{String}
use flowplane.Base.{
  ℕ, ◌+◌, Bool, false, not, ◌&&◌, ◌||◌, List, ◌++◌, Option, none, some, Text, chars, length, any,
  is_empty, leb, ltb, nat_eq, if◌then◌else◌, is_control, len, starts_with, contains_char, ◌==◌,
  List-Eq, ℕ-Eq,
}
use flowplane.Domain.Error.{DomainResult, ok, validation, with_hint, reject_if, ◌>>◌}
use flowplane.Domain.Checks.{if_some, for_each}
use flowplane.Domain.Name.{validate_name}
use flowplane.Gateway.Cluster.{reserved_rate_limit_cluster}
use flowplane.Gateway.Filters.{
  OriginMatcher, exact, prefix, suffix, contains, CorsConfig, LocalRateLimitConfig,
  GlobalRateLimitConfig, HeaderValue, HeaderMutationConfig, HealthCheckConfig, CompressorConfig,
}

unfoldable pub validate_bounded_string : String → Text → ℕ → DomainResult (Unit {0})
validate_bounded_string label value max_len =
    reject_if (is_empty value || ltb max_len (len value) || any is_control value)
      (validation "{label} values must be 1..={max_len} printable characters")

unfoldable pub validate_bounded_string_list : String → List Text → ℕ → ℕ → DomainResult (Unit {0})
unfolding validate_bounded_string
validate_bounded_string_list label values max_items max_len = do
  reject_if (ltb max_items (length values))
      (validation "{label} may contain at most {max_items} values")
  for_each (λ value. validate_bounded_string label value max_len) values

abbrev pub matcher_value : OriginMatcher → Text
matcher_value (exact value) = value
matcher_value (prefix value) = value
matcher_value (suffix value) = value
matcher_value (contains value) = value

unfoldable pub validate_origin_matcher : OriginMatcher → DomainResult (Unit {0})
unfolding validate_bounded_string
validate_origin_matcher matcher =
    validate_bounded_string "cors: allow_origin matcher value" (matcher_value matcher) 2_048

abbrev pub is_wildcard : OriginMatcher → Bool
is_wildcard (exact value) = value == chars "*"
is_wildcard (prefix value) = value == chars "*"
is_wildcard _ = false

abbrev pub over : ℕ → Option ℕ → Bool
over cap none = false
over cap (some v) = ltb cap v

unfoldable pub validate_cors : CorsConfig → DomainResult (Unit {0})
unfolding validate_origin_matcher validate_bounded_string_list
validate_cors c = do
  reject_if (is_empty c.allow_origin)
      (validation "cors: allow_origin must list at least one origin matcher")
  reject_if (ltb 64 (length c.allow_origin))
      (validation "cors: allow_origin may contain at most {MAX_CORS_ORIGINS} matchers")
  for_each validate_origin_matcher c.allow_origin
  validate_bounded_string_list "cors: allow_methods" c.allow_methods 128 256
  validate_bounded_string_list "cors: allow_headers" c.allow_headers 128 256
  validate_bounded_string_list "cors: expose_headers" c.expose_headers 128 256
  reject_if (any is_wildcard c.allow_origin && c.allow_credentials) (
      with_hint (validation "cors: allow_credentials cannot be combined with a wildcard origin")
        "list explicit origins, or drop allow_credentials")
  reject_if (over 315_576_000_000 c.max_age_seconds)
      (validation "cors: max_age_seconds exceeds the protocol cap ({})")

abbrev pub outside : ℕ → ℕ → ℕ → Bool
outside min max value = not (leb min value && leb value max)

abbrev pub outside_some : ℕ → ℕ → Option ℕ → Bool
outside_some min max none = false
outside_some min max (some value) = outside min max value

unfoldable pub validate_local_rate_limit : LocalRateLimitConfig → DomainResult (Unit {0})
validate_local_rate_limit c = do
  reject_if (is_empty c.stat_prefix) (validation "local_rate_limit: stat_prefix is required")
  reject_if (nat_eq c.token_bucket.max_tokens 0)
      (validation "local_rate_limit: token_bucket.max_tokens must be >= 1")
  reject_if (nat_eq c.token_bucket.fill_interval_ms 0)
      (validation "local_rate_limit: token_bucket.fill_interval_ms must be > 0")
  if_some c.status_code (λ code.
      reject_if (outside 400 599 code)
        (validation "local_rate_limit: status_code must be in 400..=599"))

abbrev pub max_global_rate_limit_domain_len : ℕ
max_global_rate_limit_domain_len = 253 + 36 + 36 + 2

abbrev pub bad_prefix : Option Text → Bool
bad_prefix none = false
bad_prefix (some v) = is_empty v || ltb 128 (len v) || contains_char 0 v

unfoldable pub validate_global_rate_limit : GlobalRateLimitConfig → DomainResult (Unit {0})
validate_global_rate_limit c = do
  reject_if
      (is_empty c.domain
        || ltb max_global_rate_limit_domain_len (len c.domain)
        || contains_char 0 c.domain)
      (validation
        "global_rate_limit: domain must be 1..={MAX_GLOBAL_RATE_LIMIT_DOMAIN_LEN} characters and contain no NUL")
  if c.service_cluster == reserved_rate_limit_cluster
      then ok tt
      else validate_name c.service_cluster
  reject_if (ltb 60_000 c.timeout_ms) (validation "global_rate_limit: timeout_ms must be <= 60000")
  reject_if (ltb 10 c.stage) (validation "global_rate_limit: stage must be in 0..=10")
  reject_if (bad_prefix c.stat_prefix)
      (validation "global_rate_limit: stat_prefix must be 1..=128 characters and contain no NUL")
  reject_if (outside_some 400 599 c.rate_limited_status)
      (validation "global_rate_limit: {field} must be in 400..=599")
  reject_if (outside_some 400 599 c.status_on_error)
      (validation "global_rate_limit: {field} must be in 400..=599")

unfoldable pub validate_header_value : HeaderValue → DomainResult (Unit {0})
unfolding validate_bounded_string
validate_header_value hv = do
  validate_bounded_string "header_mutation: header key" hv.key 256
  validate_bounded_string "header_mutation: header value" hv.value 4_096

unfoldable pub validate_header_values : String → List HeaderValue → DomainResult (Unit {0})
unfolding validate_header_value
validate_header_values label values = do
  reject_if (ltb 128 (length values))
      (validation "{label} may contain at most {MAX_HEADER_MUTATIONS_PER_DIRECTION} headers")
  for_each validate_header_value values

unfoldable pub validate_header_names : String → List Text → DomainResult (Unit {0})
unfolding validate_bounded_string_list
validate_header_names label values = validate_bounded_string_list label values 128 256

unfoldable pub check_key : HeaderValue → DomainResult (Unit {0})
check_key hv =
    reject_if (is_empty hv.key) (validation "header_mutation: header key must be non-empty")

unfoldable pub validate_header_mutation : HeaderMutationConfig → DomainResult (Unit {0})
unfolding validate_header_values validate_header_names check_key
validate_header_mutation c = do
  validate_header_values "header_mutation: request_headers_to_add" c.request_headers_to_add
  validate_header_names "header_mutation: request_headers_to_remove" c.request_headers_to_remove
  validate_header_values "header_mutation: response_headers_to_add" c.response_headers_to_add
  validate_header_names "header_mutation: response_headers_to_remove" c.response_headers_to_remove
  for_each check_key (c.request_headers_to_add ++ c.response_headers_to_add)

unfoldable pub validate_health_check_filter : HealthCheckConfig → DomainResult (Unit {0})
validate_health_check_filter c =
    reject_if (not (starts_with c.endpoint_path (chars "/")) || ltb 500 (len c.endpoint_path))
      (validation "health_check: endpoint_path must start with '/' and be <= 500 chars")

unfoldable pub validate_compressor : CompressorConfig → DomainResult (Unit {0})
validate_compressor c = do
  reject_if (outside_some 1 9 c.memory_level) (validation "compressor: memory_level must be 1-9")
  reject_if (outside_some 9 15 c.window_bits) (validation "compressor: window_bits must be 9-15")
