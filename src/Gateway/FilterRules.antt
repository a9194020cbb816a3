-- ===== src/Gateway/FilterRules.antt =====
-- What the validation of one HTTP filter accepts: CORS, rate limits, headers, health, compression.
use Prim.Native.String.{String}
use flowplane.Base.{
  ℕ, ◌≤◌, ◌≡◌, ◌↔◌, refl, Bool, true, false, ◌&&◌, List, Option, none, some, Text, length, any,
  is_empty, All, len, is_control, contains_char, any_none, as_bytes, Bool-cases, inl, inr, arith,
  if◌then◌else◌, List-Eq, ℕ-Eq, ◌==◌, list_eq_iff, ◌≢◌,
}
use flowplane.Domain.Error.{DomainResult, ok}
use flowplane.Domain.Checks.{
  Given, ◌&◌, both, passes, if_present, each, none_of_three, is_false, at_most, within, positive,
}
use flowplane.Domain.Name.{validate_name}
use flowplane.Domain.Grammar.{IsName, validate_name_iff}
use flowplane.Gateway.Cluster.{reserved_rate_limit_cluster}
use flowplane.Gateway.Upstream.{InRange}
use flowplane.Gateway.Filters.{
  OriginMatcher, CorsConfig, LocalRateLimitConfig, GlobalRateLimitConfig,
}
use flowplane.Gateway.Filters.Validate.{
  validate_bounded_string, validate_bounded_string_list, matcher_value, validate_origin_matcher,
  is_wildcard, over, validate_cors, outside_some, validate_local_rate_limit,
  max_global_rate_limit_domain_len, bad_prefix, validate_global_rate_limit,
}

-- 1 to `max_len` bytes, all of which print.
abbrev pub IsPrintable : ℕ → Text → Type 0
IsPrintable max_len value =
    (is_empty value ≡ false) & (len value ≤ max_len) & All (λ c. is_control c ≡ false) value

pub IsPrintable-iff :
    (label : String) (value : Text) (max_len : ℕ)
    → (validate_bounded_string label value max_len ≡ ok tt) ↔ IsPrintable max_len value
unfolding validate_bounded_string
IsPrintable-iff label value max_len = passes _ _ (
    none_of_three (is_false (is_empty value)) (at_most (len value) max_len)
      (any_none is_control value))

abbrev pub ArePrintable : ℕ → ℕ → List Text → Type 0
ArePrintable max_items max_len values =
    (length values ≤ max_items) & All (λ value. IsPrintable max_len value) values

pub printables_iff :
    (label : String) (values : List Text) (max_items max_len : ℕ)
    → (validate_bounded_string_list label values max_items max_len ≡ ok tt)
      ↔ ArePrintable max_items max_len values
unfolding validate_bounded_string_list
printables_iff label values max_items max_len =
    both (passes _ _ (at_most (length values) max_items))
      (each values (λ value. IsPrintable-iff label value max_len))

validate_origin_matcher_iff :
    (m : OriginMatcher) → (validate_origin_matcher m ≡ ok tt) ↔ IsPrintable 2_048 (matcher_value m)
unfolding validate_origin_matcher
validate_origin_matcher_iff m =
    IsPrintable-iff "cors: allow_origin matcher value" (matcher_value m) 2_048

-- Credentials go with origins that are all named.
abbrev pub IsCors : CorsConfig → Type 0
IsCors c =
    (is_empty c.allow_origin ≡ false)
    & (length c.allow_origin ≤ 64)
    & All (λ m. IsPrintable 2_048 (matcher_value m)) c.allow_origin
    & ArePrintable 128 256 c.allow_methods
    & ArePrintable 128 256 c.allow_headers
    & ArePrintable 128 256 c.expose_headers
    & (c.allow_credentials ≡ true → All (λ m. is_wildcard m ≡ false) c.allow_origin)
    & Given c.max_age_seconds (λ age. age ≤ 315_576_000_000)

not_both :
    (ms : List OriginMatcher) (c : Bool)
    → ((any is_wildcard ms && c) ≡ false) ↔ (c ≡ true → All (λ m. is_wildcard m ≡ false) ms)
not_both ms c =
    let (f, g) = any_none is_wildcard ms in
    (
      λ h k. f (ground arith),
      λ h. elim (Bool-cases c) [
        | inl e ↦ let none_there = g (h e) in ground arith
        | inr e ↦ ground arith
      ],
    )

over_iff : (cap : ℕ) (o : Option ℕ) → (over cap o ≡ false) ↔ Given o (λ v. v ≤ cap)
over_iff cap none = (λ h. tt, λ h. refl)
over_iff cap (some v) = at_most v cap

pub validate_cors_iff : (c : CorsConfig) → (validate_cors c ≡ ok tt) ↔ IsCors c
unfolding validate_cors
validate_cors_iff c = both (passes _ _ (is_false (is_empty c.allow_origin))) (
    both (passes _ _ (at_most (length c.allow_origin) 64)) (
      both (each c.allow_origin validate_origin_matcher_iff) (
        both (printables_iff "cors: allow_methods" c.allow_methods 128 256) (
          both (printables_iff "cors: allow_headers" c.allow_headers 128 256) (
            both (printables_iff "cors: expose_headers" c.expose_headers 128 256) (
              both (passes _ _ (not_both c.allow_origin c.allow_credentials))
                (passes _ _ (over_iff 315_576_000_000 c.max_age_seconds))))))))

abbrev pub IsLocalRateLimit : LocalRateLimitConfig → Type 0
IsLocalRateLimit c =
    (is_empty c.stat_prefix ≡ false)
    & (1 ≤ c.token_bucket.max_tokens)
    & (1 ≤ c.token_bucket.fill_interval_ms)
    & Given c.status_code (λ code. InRange 400 599 code)

pub validate_local_rate_limit_iff :
    (c : LocalRateLimitConfig) → (validate_local_rate_limit c ≡ ok tt) ↔ IsLocalRateLimit c
unfolding validate_local_rate_limit
validate_local_rate_limit_iff c = both (passes _ _ (is_false (is_empty c.stat_prefix))) (
    both (passes _ _ (positive c.token_bucket.max_tokens)) (
      both (passes _ _ (positive c.token_bucket.fill_interval_ms))
        (if_present c.status_code (λ code. passes _ _ (within 400 599 code)))))

pub outside_iff :
    (min max : ℕ) (o : Option ℕ)
    → (outside_some min max o ≡ false) ↔ Given o (λ value. InRange min max value)
outside_iff min max none = (λ h. tt, λ h. refl)
outside_iff min max (some value) = within min max value

bad_prefix_iff :
    (o : Option Text)
    → (bad_prefix o ≡ false)
      ↔ Given o (λ v. (is_empty v ≡ false) & (len v ≤ 128) & (contains_char 0 v ≡ false))
bad_prefix_iff none = (λ h. tt, λ h. refl)
bad_prefix_iff (some v) =
    none_of_three (is_false (is_empty v)) (at_most (len v) 128) (is_false (contains_char 0 v))

abbrev pub IsServiceCluster : Text → Type 0
IsServiceCluster name = (name ≢ reserved_rate_limit_cluster) → IsName (as_bytes name)

module _ {ℓ} {P : Type ℓ} {m : DomainResult (Unit {0})} where
  unless : (b : Bool) → (m ≡ ok tt) ↔ P → ((if b then ok tt else m) ≡ ok tt) ↔ (b ≡ false → P)
  unless true (f, g) = (λ h e. cc, λ h. refl)
  unless false (f, g) = (λ h e. f h, λ h. g (h refl))

IsServiceCluster-iff :
    (name : Text)
    → ((if name == reserved_rate_limit_cluster then ok tt else validate_name name) ≡ ok tt)
      ↔ IsServiceCluster name
IsServiceCluster-iff name =
    let (f, g) = list_eq_iff ℕ-Eq name reserved_rate_limit_cluster in
    let (h, k) = unless (name == reserved_rate_limit_cluster) (validate_name_iff name) in
    (
      λ e ne. h e (elim (Bool-cases (name == reserved_rate_limit_cluster)) [
        | inl same ↦ absurd (ne (f same))
        | inr other ↦ other
      ]),
      λ p. k (λ other. p (λ e. let same = g e in cc)),
    )

abbrev pub IsGlobalRateLimit : GlobalRateLimitConfig → Type 0
IsGlobalRateLimit c =
    ((is_empty c.domain ≡ false) & (len c.domain ≤ 327) & (contains_char 0 c.domain ≡ false))
    & IsServiceCluster c.service_cluster
    & (c.timeout_ms ≤ 60_000)
    & (c.stage ≤ 10)
    & Given c.stat_prefix (λ v. (is_empty v ≡ false) & (len v ≤ 128) & (contains_char 0 v ≡ false))
    & Given c.rate_limited_status (λ code. InRange 400 599 code)
    & Given c.status_on_error (λ code. InRange 400 599 code)

pub validate_global_rate_limit_iff :
    (c : GlobalRateLimitConfig) → (validate_global_rate_limit c ≡ ok tt) ↔ IsGlobalRateLimit c
unfolding validate_global_rate_limit
validate_global_rate_limit_iff c =
    both
      (passes _ _ (
        none_of_three (is_false (is_empty c.domain))
          (at_most (len c.domain) max_global_rate_limit_domain_len)
          (is_false (contains_char 0 c.domain))))
      (both (IsServiceCluster-iff c.service_cluster) (
        both (passes _ _ (at_most c.timeout_ms 60_000)) (
          both (passes _ _ (at_most c.stage 10)) (
            both (passes _ _ (bad_prefix_iff c.stat_prefix)) (
              both (passes _ _ (outside_iff 400 599 c.rate_limited_status))
                (passes _ _ (outside_iff 400 599 c.status_on_error)))))))
