-- ===== src/Gateway/Filters.antt =====
-- HTTP filters and per-route overrides: their data (crates/fp-domain/src/gateway/filters.rs). A
-- `BTreeMap` is an association list in the order of its keys.
pub mod Validate
pub mod Security
pub mod Chain
use flowplane.Base.{
  ℕ, ◌+◌, Bool, true, false, List, [], ◌∷◌, Option, none, some, Text, chars, Dict, find, ◌==◌,
  List-Eq, ℕ-Eq, arith, ◌≡◌, refl, ◌↔◌, find-passes, list_eq_iff,
}
use flowplane.Gateway.Matchers.{PathMatch}

pub data HttpFilterKind : Type 0 where
  cors local_rate_limit header_mutation health_check compressor : HttpFilterKind
  jwt_auth ext_authz rbac global_rate_limit : HttpFilterKind

abbrev pub all_kinds : List HttpFilterKind
all_kinds =
    cors ∷ local_rate_limit ∷ header_mutation ∷ health_check ∷ compressor ∷ jwt_auth ∷ ext_authz
    ∷ rbac ∷ global_rate_limit ∷ []

abbrev pub kind_str : HttpFilterKind → Text
kind_str cors = chars "cors"
kind_str local_rate_limit = chars "local_rate_limit"
kind_str header_mutation = chars "header_mutation"
kind_str health_check = chars "health_check"
kind_str compressor = chars "compressor"
kind_str jwt_auth = chars "jwt_auth"
kind_str ext_authz = chars "ext_authz"
kind_str rbac = chars "rbac"
kind_str global_rate_limit = chars "global_rate_limit"

unfoldable pub parse_kind : Text → Option HttpFilterKind
parse_kind raw = find (λ kind. kind_str kind == raw) all_kinds

abbrev pub is_disablable : HttpFilterKind → Bool
is_disablable health_check = false
is_disablable _ = true

pub data OriginMatcher : Type 0 where
  exact prefix suffix contains : Text → OriginMatcher

pub record CorsConfig : Type 0 where
  pub allow_origin : List OriginMatcher
  pub allow_methods : List Text
  pub allow_headers : List Text
  pub expose_headers : List Text
  pub max_age_seconds : Option ℕ
  pub allow_credentials : Bool

pub record TokenBucket : Type 0 where
  pub max_tokens : ℕ
  pub tokens_per_fill : Option ℕ
  pub fill_interval_ms : ℕ

pub record LocalRateLimitConfig : Type 0 where
  pub stat_prefix : Text
  pub token_bucket : TokenBucket
  pub status_code : Option ℕ

pub data RateLimitRequestType : Type 0 where
  both_types internal external : RateLimitRequestType

pub record GlobalRateLimitConfig : Type 0 where
  pub domain : Text
  pub service_cluster : Text
  pub timeout_ms : ℕ
  pub failure_mode_deny : Bool
  pub stage : ℕ
  pub request_type : RateLimitRequestType
  pub stat_prefix : Option Text
  pub enable_x_ratelimit_headers : Bool
  pub disable_x_envoy_ratelimited_header : Bool
  pub rate_limited_status : Option ℕ
  pub status_on_error : Option ℕ

pub record HeaderValue : Type 0 where
  pub key : Text
  pub value : Text
  pub append : Bool

pub record HeaderMutationConfig : Type 0 where
  pub request_headers_to_add : List HeaderValue
  pub request_headers_to_remove : List Text
  pub response_headers_to_add : List HeaderValue
  pub response_headers_to_remove : List Text

pub record HealthCheckConfig : Type 0 where
  pub endpoint_path : Text
  pub pass_through_mode : Bool
  pub cache_time_ms : Option ℕ

pub data CompressionLevel : Type 0 where
  best_speed default_compression best_compression : CompressionLevel

pub record CompressorConfig : Type 0 where
  pub memory_level : Option ℕ
  pub window_bits : Option ℕ
  pub compression_level : Option CompressionLevel

pub data JwksSource : Type 0 where
  remote : (uri cluster : Text) (timeout_ms : ℕ) (cache_duration_secs : Option ℕ) → JwksSource
  inline : (jwks : Text) → JwksSource

pub record JwtProvider : Type 0 where
  pub issuer : Option Text
  pub audiences : List Text
  pub jwks : JwksSource
  pub clock_skew_seconds : ℕ
  pub forward : Bool

pub data JwtRequirement : Type 0 where
  provider : (provider_name : Text) → JwtRequirement
  any_of : (provider_names : List Text) → JwtRequirement
  allow_missing allow_missing_or_failed : JwtRequirement

pub record JwtRule : Type 0 where
  pub matcher : PathMatch
  pub requirement_name : Text

pub record JwtAuthConfig : Type 0 where
  pub providers : Dict Text JwtProvider
  pub requirement_map : Dict Text JwtRequirement
  pub rules : List JwtRule
  pub bypass_cors_preflight : Bool

pub record ExtAuthzConfig : Type 0 where
  pub cluster : Text
  pub timeout_ms : ℕ
  pub failure_mode_allow : Bool
  pub include_peer_certificate : Bool

pub data RbacAction : Type 0 where
  allow deny : RbacAction

pub data RbacPermission : Type 0 where
  any_permission : RbacPermission
  header_permission : (name : Text) (exact : Option Text) → RbacPermission
  url_path : (prefix : Text) → RbacPermission
  destination_port : (port : ℕ) → RbacPermission

pub data RbacPrincipal : Type 0 where
  any_principal : RbacPrincipal
  source_cidr : (cidr : Text) → RbacPrincipal
  header_principal : (name exact : Text) → RbacPrincipal

pub record RbacPolicy : Type 0 where
  pub permissions : List RbacPermission
  pub principals : List RbacPrincipal

pub record RbacConfig : Type 0 where
  pub action : RbacAction
  pub policies : Dict Text RbacPolicy

pub data HttpFilterSpec : Type 0 where
  cors_filter : CorsConfig → HttpFilterSpec
  local_rate_limit_filter : LocalRateLimitConfig → HttpFilterSpec
  header_mutation_filter : HeaderMutationConfig → HttpFilterSpec
  health_check_filter : HealthCheckConfig → HttpFilterSpec
  compressor_filter : CompressorConfig → HttpFilterSpec
  jwt_auth_filter : JwtAuthConfig → HttpFilterSpec
  ext_authz_filter : ExtAuthzConfig → HttpFilterSpec
  rbac_filter : RbacConfig → HttpFilterSpec
  global_rate_limit_filter : GlobalRateLimitConfig → HttpFilterSpec

-- `kind_value`.
abbrev pub kind_value : HttpFilterSpec → HttpFilterKind
kind_value (cors_filter c) = cors
kind_value (local_rate_limit_filter c) = local_rate_limit
kind_value (header_mutation_filter c) = header_mutation
kind_value (health_check_filter c) = health_check
kind_value (compressor_filter c) = compressor
kind_value (jwt_auth_filter c) = jwt_auth
kind_value (ext_authz_filter c) = ext_authz
kind_value (rbac_filter c) = rbac
kind_value (global_rate_limit_filter c) = global_rate_limit

pub record HttpFilterEntry : Type 0 where
  pub filter : HttpFilterSpec
  pub disabled : Bool

pub data FilterOverride : Type 0 where
  disable_override : (filter_type : Text) → FilterOverride
  cors_override : CorsConfig → FilterOverride
  local_rate_limit_override : LocalRateLimitConfig → FilterOverride
  jwt_auth_override : (requirement_name : Text) → FilterOverride
