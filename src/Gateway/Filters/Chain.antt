-- ===== src/Gateway/Filters/Chain.antt =====
-- The filter chain of a listener and the overrides of a scope
-- (crates/fp-domain/src/gateway/filters.rs).
use flowplane.Base.{
  ℕ, ◌||◌, List, [], ◌∷◌, Option, none, some, Text, is_empty, ltb, len, if◌then◌else◌,
}
use flowplane.Domain.Error.{
  DomainError, DomainResult, ok, err, validation, with_hint, reject_if, ◌>>◌, ◌>>=◌,
}
use flowplane.Domain.Checks.{for_each_fresh, seen_before}
use flowplane.Gateway.Filters.{
  cors, local_rate_limit, jwt_auth, kind_str, parse_kind, is_disablable, HttpFilterSpec,
  cors_filter, local_rate_limit_filter, header_mutation_filter, health_check_filter,
  compressor_filter, jwt_auth_filter, ext_authz_filter, rbac_filter, global_rate_limit_filter,
  kind_value, HttpFilterEntry, FilterOverride, disable_override, cors_override,
  local_rate_limit_override, jwt_auth_override,
}
use flowplane.Gateway.Filters.Validate.{
  validate_cors, validate_local_rate_limit, validate_header_mutation, validate_health_check_filter,
  validate_compressor, validate_global_rate_limit,
}
use flowplane.Gateway.Filters.Security.{
  IpFamily, validate_jwt_auth, validate_ext_authz, validate_rbac,
}

abbrev pub undisablable : DomainError
undisablable =
    with_hint (validation "filter type \"{filter_type}\" cannot be disabled per-route")
      "disablable types: {}"

unfoldable pub target_kind : FilterOverride → DomainResult Text
target_kind (disable_override filter_type) = elim (parse_kind filter_type) [
  | none ↦ err undisablable
  | some kind ↦ if is_disablable kind then ok (kind_str kind) else err undisablable
]
target_kind (cors_override c) = ok (kind_str cors)
target_kind (local_rate_limit_override c) = ok (kind_str local_rate_limit)
target_kind (jwt_auth_override requirement_name) = ok (kind_str jwt_auth)

unfoldable pub validate_override : FilterOverride → DomainResult (Unit {0})
unfolding target_kind
validate_override (disable_override filter_type) =
    target_kind (disable_override filter_type) >>= λ kind. ok tt
validate_override (cors_override c) = validate_cors c
validate_override (local_rate_limit_override c) = validate_local_rate_limit c
validate_override (jwt_auth_override requirement_name) =
    reject_if (is_empty requirement_name || ltb 128 (len requirement_name))
      (validation "jwt_auth override: requirement_name must be 1..=128 characters")

-- The loop over the overrides of a scope, with the kinds seen.
unfoldable pub validate_overrides_from : List Text → List FilterOverride → DomainResult (Unit {0})
unfolding validate_override
validate_overrides_from seen [] = ok tt
validate_overrides_from seen (ov ∷ overrides) = do
  validate_override ov
  target_kind ov >>= λ kind. do
    reject_if (seen_before kind seen)
        (validation "multiple overrides target filter type \"{kind}\" in the same scope")
    validate_overrides_from (kind ∷ seen) overrides

unfoldable pub validate_filter_overrides : List FilterOverride → DomainResult (Unit {0})
unfolding validate_overrides_from
validate_filter_overrides overrides = validate_overrides_from [] overrides

module _ (ip_family : Text → Option IpFamily) (parse_u8 : Text → Option ℕ) where
  unfoldable pub validate_filter : HttpFilterSpec → DomainResult (Unit {0})
  unfolding validate_rbac
  validate_filter (cors_filter c) = validate_cors c
  validate_filter (local_rate_limit_filter c) = validate_local_rate_limit c
  validate_filter (header_mutation_filter c) = validate_header_mutation c
  validate_filter (health_check_filter c) = validate_health_check_filter c
  validate_filter (compressor_filter c) = validate_compressor c
  validate_filter (jwt_auth_filter c) = validate_jwt_auth c
  validate_filter (ext_authz_filter c) = validate_ext_authz c
  validate_filter (rbac_filter c) = validate_rbac ip_family parse_u8 c
  validate_filter (global_rate_limit_filter c) = validate_global_rate_limit c

  unfoldable pub validate_filter_chain : List HttpFilterEntry → DomainResult (Unit {0})
  unfolding validate_filter
  validate_filter_chain entries =
      for_each_fresh (λ entry. validate_filter entry.filter)
        (λ entry. kind_str (kind_value entry.filter))
        (with_hint (validation "duplicate filter type \"{}\" in the chain")
          "each filter type may appear at most once per listener")
        (λ entry. ok tt) [] entries
