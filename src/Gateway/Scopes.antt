-- ===== src/Gateway/Scopes.antt =====
-- Which filter chains and which sets of overrides are accepted: each filter type once.
use flowplane.Base.{
  ℕ, ◌≤◌, ◌≡◌, ◌≢◌, ◌↔◌, ◌⊎◌, refl, sym, ◌∙◌, ap, true, false, List, [], ◌∷◌, Option, some, Text,
  map, is_empty, All, len, find-passes, list_eq_iff, List-Eq, ℕ-Eq, ◌==◌, Bool-cases, Option-cases,
  inl, inr, arith,
}
use flowplane.Domain.Error.{DomainError, ok, err, validation}
use flowplane.Domain.Checks.{
  fresh_iff, Distinct, passes, neither, is_false, at_most, for_each_fresh,
}
use flowplane.Gateway.Filters.{
  HttpFilterKind, cors, local_rate_limit, header_mutation, health_check, compressor, jwt_auth,
  ext_authz, rbac, global_rate_limit, all_kinds, kind_str, parse_kind, is_disablable,
  HttpFilterSpec, cors_filter, local_rate_limit_filter, header_mutation_filter, health_check_filter,
  compressor_filter, jwt_auth_filter, ext_authz_filter, rbac_filter, global_rate_limit_filter,
  kind_value, HttpFilterEntry, FilterOverride, disable_override, cors_override,
  local_rate_limit_override, jwt_auth_override,
}
use flowplane.Gateway.Filters.Security.{IpFamily}
use flowplane.Gateway.Filters.Chain.{
  undisablable, target_kind, validate_override, validate_overrides_from, validate_filter_overrides,
  validate_filter, validate_filter_chain,
}
use flowplane.Gateway.FilterRules.{
  IsCors, validate_cors_iff, IsLocalRateLimit, validate_local_rate_limit_iff, IsGlobalRateLimit,
  validate_global_rate_limit_iff,
}
use flowplane.Gateway.HeaderRules.{
  IsHeaderMutation, validate_header_mutation_iff, IsHealthFilter, validate_health_check_filter_iff,
  IsCompressor, validate_compressor_iff,
}
use flowplane.Gateway.SecurityRules.{
  IsJwtAuth, validate_jwt_auth_iff, IsExtAuthz, validate_ext_authz_iff, IsRbac, validate_rbac_iff,
}

parse_own : (kind : HttpFilterKind) → parse_kind (kind_str kind) ≡ some kind
unfolding parse_kind
parse_own cors = refl
parse_own local_rate_limit = refl
parse_own header_mutation = refl
parse_own health_check = refl
parse_own compressor = refl
parse_own jwt_auth = refl
parse_own ext_authz = refl
parse_own rbac = refl
parse_own global_rate_limit = refl

-- The name of a filter type leads back to it, and to no other.
pub parse_kind_iff :
    (raw : Text) (kind : HttpFilterKind) → (parse_kind raw ≡ some kind) ↔ (raw ≡ kind_str kind)
unfolding parse_kind
parse_kind_iff raw kind = (
  λ h.
      sym (
        (list_eq_iff ℕ-Eq (kind_str kind) raw).0
          (find-passes (λ k. kind_str k == raw) all_kinds h)),
  λ e. ap parse_kind e ∙ parse_own kind,
)

module _ (ip_family : Text → Option IpFamily) (parse_u8 : Text → Option ℕ) where
  abbrev pub IsFilter : HttpFilterSpec → Type 0
  IsFilter (cors_filter c) = IsCors c
  IsFilter (local_rate_limit_filter c) = IsLocalRateLimit c
  IsFilter (header_mutation_filter c) = IsHeaderMutation c
  IsFilter (health_check_filter c) = IsHealthFilter c
  IsFilter (compressor_filter c) = IsCompressor c
  IsFilter (jwt_auth_filter c) = IsJwtAuth c
  IsFilter (ext_authz_filter c) = IsExtAuthz c
  IsFilter (rbac_filter c) = IsRbac ip_family parse_u8 c
  IsFilter (global_rate_limit_filter c) = IsGlobalRateLimit c

  validate_filter_iff :
      (f : HttpFilterSpec) → (validate_filter ip_family parse_u8 f ≡ ok tt) ↔ IsFilter f
  unfolding validate_filter
  validate_filter_iff (cors_filter c) = validate_cors_iff c
  validate_filter_iff (local_rate_limit_filter c) = validate_local_rate_limit_iff c
  validate_filter_iff (header_mutation_filter c) = validate_header_mutation_iff c
  validate_filter_iff (health_check_filter c) = validate_health_check_filter_iff c
  validate_filter_iff (compressor_filter c) = validate_compressor_iff c
  validate_filter_iff (jwt_auth_filter c) = validate_jwt_auth_iff c
  validate_filter_iff (ext_authz_filter c) = validate_ext_authz_iff c
  validate_filter_iff (rbac_filter c) = validate_rbac_iff ip_family parse_u8 c
  validate_filter_iff (global_rate_limit_filter c) = validate_global_rate_limit_iff c

  abbrev entry_kind : HttpFilterEntry → Text
  entry_kind entry = kind_str (kind_value entry.filter)

  abbrev pub IsChain : List HttpFilterEntry → Type 0
  IsChain entries = All (λ entry. IsFilter entry.filter) entries × Distinct (map entry_kind entries)

  -- A filter chain is accepted exactly when each of its filters is well-formed and no filter type
  -- comes twice.
  pub validate_filter_chain_iff :
      (entries : List HttpFilterEntry)
      → (validate_filter_chain ip_family parse_u8 entries ≡ ok tt) ↔ IsChain entries
  unfolding validate_filter_chain
  validate_filter_chain_iff entries =
      fresh_iff (λ entry. validate_filter ip_family parse_u8 entry.filter) entry_kind _
        (λ entry. validate_filter_iff entry.filter) entries

-- The type that an override targets, where it targets one.
abbrev pub target_key : FilterOverride → Text
target_key (disable_override filter_type) = filter_type
target_key (cors_override c) = kind_str cors
target_key (local_rate_limit_override c) = kind_str local_rate_limit
target_key (jwt_auth_override requirement_name) = kind_str jwt_auth

-- What may be switched off is a filter type other than the health check.
abbrev pub IsOverride : FilterOverride → Type 0
IsOverride (disable_override filter_type) =
    (kind : HttpFilterKind) × (filter_type ≡ kind_str kind) × (kind ≢ health_check)
IsOverride (cors_override c) = IsCors c
IsOverride (local_rate_limit_override c) = IsLocalRateLimit c
IsOverride (jwt_auth_override requirement_name) =
    (is_empty requirement_name ≡ false) × (len requirement_name ≤ 128)

disablable_iff : (kind : HttpFilterKind) → (is_disablable kind ≡ true) ↔ (kind ≢ health_check)
disablable_iff health_check = (λ h. cc, λ h. absurd (h refl))
disablable_iff cors = (λ h e. cc, λ h. refl)
disablable_iff local_rate_limit = (λ h e. cc, λ h. refl)
disablable_iff header_mutation = (λ h e. cc, λ h. refl)
disablable_iff compressor = (λ h e. cc, λ h. refl)
disablable_iff jwt_auth = (λ h e. cc, λ h. refl)
disablable_iff ext_authz = (λ h e. cc, λ h. refl)
disablable_iff rbac = (λ h e. cc, λ h. refl)
disablable_iff global_rate_limit = (λ h e. cc, λ h. refl)

-- An override names its target, or is rejected for want of one.
target_kind-cases :
    (ov : FilterOverride)
    → (target_kind ov ≡ ok (target_key ov)) ⊎ (validate_override ov ≡ err undisablable)
unfolding target_kind validate_override
target_kind-cases (disable_override filter_type) = elim (Option-cases (parse_kind filter_type)) [
  | inl e ↦ inr (rw (validate_override, target_kind, e) refl)
  | inr (k, e) ↦
      let named = (parse_kind_iff filter_type k).0 e in
      elim (Bool-cases (is_disablable k)) [
        | inl d ↦ inl (ground arith)
        | inr d ↦ inr (rw (validate_override, target_kind, e, d) refl)
      ]
]
target_kind-cases (cors_override c) = inl refl
target_kind-cases (local_rate_limit_override c) = inl refl
target_kind-cases (jwt_auth_override requirement_name) = inl refl

IsOverride-iff : (ov : FilterOverride) → (validate_override ov ≡ ok tt) ↔ IsOverride ov
unfolding validate_override target_kind
IsOverride-iff (disable_override filter_type) = (
  λ h. elim (Option-cases (parse_kind filter_type)) [
    | inl e ↦ ground arith
    | inr (k, e) ↦ (
      k,
      (parse_kind_iff filter_type k).0 e,
      (disablable_iff k).0
          (elim (Bool-cases (is_disablable k)) [ inl d ↦ d | inr d ↦ ground arith ]),
    )
  ],
  λ (k, named, ne).
      let e = (parse_kind_iff filter_type k).1 named in
      let d = (disablable_iff k).1 ne in rw (validate_override, target_kind, e, d) refl,
)
IsOverride-iff (cors_override c) = validate_cors_iff c
IsOverride-iff (local_rate_limit_override c) = validate_local_rate_limit_iff c
IsOverride-iff (jwt_auth_override requirement_name) =
    passes _ _ (neither (is_false (is_empty requirement_name)) (at_most (len requirement_name) 128))

abbrev duplicate : DomainError
duplicate = validation "multiple overrides target filter type \"{kind}\" in the same scope"

-- The loop is one over the targets that the overrides name.
overrides_from_eq :
    (seen : List Text) (ovs : List FilterOverride)
    → validate_overrides_from seen ovs
      ≡ for_each_fresh validate_override target_key duplicate (λ ov. ok tt) seen ovs
unfolding validate_overrides_from
overrides_from_eq seen [] = refl
overrides_from_eq seen (ov ∷ ovs) = elim (target_kind-cases ov) [
  | inl e ↦ rw (e, overrides_from_eq (target_key ov ∷ seen) ovs) refl
  | inr bad ↦ rw bad refl
]

abbrev pub AreOverrides : List FilterOverride → Type 0
AreOverrides overrides = All IsOverride overrides × Distinct (map target_key overrides)

-- The overrides of a scope are accepted exactly when each of them is well-formed, a disabled type being
-- any filter type but the health check, and no two target one filter type.
pub validate_filter_overrides_iff :
    (overrides : List FilterOverride)
    → (validate_filter_overrides overrides ≡ ok tt) ↔ AreOverrides overrides
unfolding validate_filter_overrides
validate_filter_overrides_iff overrides =
    let same = overrides_from_eq [] overrides in
    let (out, back) = fresh_iff validate_override target_key duplicate IsOverride-iff overrides in
    (λ h. out (sym same ∙ h), λ p. same ∙ back p)
