-- ===== src/Gateway/SecurityRules.antt =====
-- What the validation of the security filters accepts: every reference of a JWT configuration leads to
-- a declaration, and every RBAC policy is complete.
use flowplane.Base.{
  ℕ, ◌≤◌, ◌≡◌, ◌↔◌, ◌⊎◌, refl, true, false, not, List, [], ◌∷◌, Option, none, some, Text, chars,
  retain, is_empty, All, len, starts_with, as_bytes, Dict, lookup, List-Eq, ℕ-Eq, Bool-cases, inl,
  inr, arith,
}
use flowplane.Domain.Error.{ok}
use flowplane.Domain.Checks.{
  split_or, ◌&◌, both, passes, each, neither, holds, is_false, at_most, positive,
}
use flowplane.Domain.Grammar.{IsName, validate_name_iff}
use flowplane.Gateway.Upstream.{InRange}
use flowplane.Gateway.Cluster.Validate.{is_some}
use flowplane.Gateway.Filters.{
  JwksSource, remote, inline, JwtProvider, JwtRequirement, provider, any_of, allow_missing,
  allow_missing_or_failed, JwtRule, JwtAuthConfig, ExtAuthzConfig, RbacPermission, any_permission,
  header_permission, url_path, destination_port, RbacPrincipal, any_principal, source_cidr,
  header_principal, RbacPolicy, RbacConfig,
}
use flowplane.Gateway.Filters.Security.{
  contains_key, validate_jwks, validate_provider, missing, is_empty_any_of, validate_requirement,
  validate_rule, validate_jwt_auth, validate_ext_authz, validate_permission, IpFamily, valid_cidr,
  validate_principal, validate_policy, validate_rbac,
}

-- The key is declared.
abbrev pub Declared {ℓ} : {V : Type ℓ} → Text → Dict Text V → Type ℓ
Declared {V = V} key dict = (v : V) × (lookup key dict ≡ some v)

some_iff {ℓ} : {V : Type ℓ} (o : Option V) → (is_some o ≡ true) ↔ ((v : V) × (o ≡ some v))
some_iff none = (λ h. cc, λ (v, e). cc)
some_iff (some v) = (λ h. (v, refl), λ h. refl)

Declared-iff {ℓ} :
    {V : Type ℓ} (key : Text) (dict : Dict Text V)
    → (contains_key key dict ≡ true) ↔ Declared key dict
Declared-iff key dict = some_iff (lookup key dict)

abbrev pub IsJwks : JwksSource → Type 0
IsJwks (remote uri cluster timeout_ms cache) =
    ((starts_with uri (chars "https://") ≡ true) ⊎ (starts_with uri (chars "http://") ≡ true))
    & IsName (as_bytes cluster)
    & InRange 1 60_000 timeout_ms
IsJwks (inline jwks) = (is_empty jwks ≡ false) × (len jwks ≤ 65_536)

validate_jwks_iff : (jwks : JwksSource) → (validate_jwks jwks ≡ ok tt) ↔ IsJwks jwks
unfolding validate_jwks
validate_jwks_iff (remote uri cluster timeout_ms cache) =
    both
      (passes _ _
        (split_or (starts_with uri (chars "https://")) (starts_with uri (chars "http://"))))
      (both (validate_name_iff cluster)
        (passes _ _ (neither (positive timeout_ms) (at_most timeout_ms 60_000))))
validate_jwks_iff (inline jwks) =
    passes _ _ (neither (is_false (is_empty jwks)) (at_most (len jwks) 65_536))

abbrev pub IsProvider : Text × JwtProvider → Type 0
IsProvider (name, p) = IsName (as_bytes name) & IsJwks p.jwks

validate_provider_iff : (p : Text × JwtProvider) → (validate_provider p ≡ ok tt) ↔ IsProvider p
unfolding validate_provider
validate_provider_iff (name, p) = both (validate_name_iff name) (validate_jwks_iff p.jwks)

-- Every provider that a requirement names is declared.
abbrev pub IsResolved : Dict Text JwtProvider → JwtRequirement → Type 0
IsResolved providers (provider name) = Declared name providers
IsResolved providers (any_of names) = All (λ name. Declared name providers) names
IsResolved providers _ = Unit

none_missing :
    (providers : Dict Text JwtProvider) (names : List Text)
    → (is_empty (retain (λ n. not (contains_key n providers)) names) ≡ true)
      ↔ All (λ name. Declared name providers) names
none_missing providers [] = (λ h. tt, λ h. refl)
none_missing providers (name ∷ names) =
    let (f, g) = none_missing providers names in
    let (d, e) = Declared-iff name providers in
    (
      λ h. elim (Bool-cases (contains_key name providers)) [
        | inl there ↦ (d there, f (ground arith))
        | inr gone ↦ ground arith
      ],
      λ (h, hs). let rest = g hs in let there = e h in ground arith,
    )

IsResolved-iff :
    (providers : Dict Text JwtProvider) (req : JwtRequirement)
    → (not (is_empty (missing providers req)) ≡ false) ↔ IsResolved providers req
IsResolved-iff providers (provider name) =
    let (d, e) = Declared-iff name providers in
    (λ h. d (ground arith), λ h. let there = e h in ground arith)
IsResolved-iff providers (any_of names) =
    let (f, g) = none_missing providers names in
    (λ h. f (ground arith), λ h. let rest = g h in ground arith)
IsResolved-iff providers allow_missing = (λ h. tt, λ h. refl)
IsResolved-iff providers allow_missing_or_failed = (λ h. tt, λ h. refl)

abbrev pub IsRequirement : Dict Text JwtProvider → Text × JwtRequirement → Type 0
IsRequirement providers (name, req) =
    IsName (as_bytes name) & (is_empty_any_of req ≡ false) & IsResolved providers req

validate_requirement_iff :
    (providers : Dict Text JwtProvider) (r : Text × JwtRequirement)
    → (validate_requirement providers r ≡ ok tt) ↔ IsRequirement providers r
unfolding validate_requirement
validate_requirement_iff providers (name, req) =
    both (validate_name_iff name) (
      both (passes _ _ (is_false (is_empty_any_of req)))
        (passes _ _ (IsResolved-iff providers req)))

rule_iff :
    (requirements : Dict Text JwtRequirement) (rule : JwtRule)
    → (validate_rule requirements rule ≡ ok tt) ↔ Declared rule.requirement_name requirements
unfolding validate_rule
rule_iff requirements rule =
    let (d, e) = Declared-iff rule.requirement_name requirements in
    passes _ _ (λ h. d (ground arith), λ h. let there = e h in ground arith)

abbrev pub IsJwtAuth : JwtAuthConfig → Type 0
IsJwtAuth c =
    (is_empty c.providers ≡ false)
    & All IsProvider c.providers
    & All (IsRequirement c.providers) c.requirement_map
    & All (λ rule. Declared rule.requirement_name c.requirement_map) c.rules

-- A JWT configuration is accepted exactly when it has providers, each with a name and a usable key
-- source, every requirement has a name and names declared providers only, at least one if it asks for
-- any of them, and every rule names a declared requirement.
pub validate_jwt_auth_iff : (c : JwtAuthConfig) → (validate_jwt_auth c ≡ ok tt) ↔ IsJwtAuth c
unfolding validate_jwt_auth
validate_jwt_auth_iff c = both (passes _ _ (is_false (is_empty c.providers))) (
    both (each c.providers validate_provider_iff) (
      both (each c.requirement_map (validate_requirement_iff c.providers))
        (each c.rules (rule_iff c.requirement_map))))

abbrev pub IsExtAuthz : ExtAuthzConfig → Type 0
IsExtAuthz c = IsName (as_bytes c.cluster) × InRange 1 60_000 c.timeout_ms

pub validate_ext_authz_iff : (c : ExtAuthzConfig) → (validate_ext_authz c ≡ ok tt) ↔ IsExtAuthz c
unfolding validate_ext_authz
validate_ext_authz_iff c =
    both (validate_name_iff c.cluster)
      (passes _ _ (neither (positive c.timeout_ms) (at_most c.timeout_ms 60_000)))

abbrev pub IsPermission : RbacPermission → Type 0
IsPermission any_permission = Unit
IsPermission (header_permission header value) = is_empty header ≡ false
IsPermission (url_path path) = starts_with path (chars "/") ≡ true
IsPermission (destination_port port) = 1 ≤ port

IsPermission-iff : (p : RbacPermission) → (validate_permission p ≡ ok tt) ↔ IsPermission p
unfolding validate_permission
IsPermission-iff any_permission = (λ h. tt, λ h. refl)
IsPermission-iff (header_permission header value) = passes _ _ (is_false (is_empty header))
IsPermission-iff (url_path path) = passes _ _ (holds (starts_with path (chars "/")))
IsPermission-iff (destination_port port) = passes _ _ (positive port)

module _ (ip_family : Text → Option IpFamily) (parse_u8 : Text → Option ℕ) where
  abbrev pub IsPrincipal : RbacPrincipal → Type 0
  IsPrincipal any_principal = Unit
  IsPrincipal (source_cidr cidr) = valid_cidr ip_family parse_u8 cidr ≡ true
  IsPrincipal (header_principal header value) = is_empty header ≡ false

  IsPrincipal-iff :
      (p : RbacPrincipal) → (validate_principal ip_family parse_u8 p ≡ ok tt) ↔ IsPrincipal p
  unfolding validate_principal
  IsPrincipal-iff any_principal = (λ h. tt, λ h. refl)
  IsPrincipal-iff (source_cidr cidr) = passes _ _ (holds (valid_cidr ip_family parse_u8 cidr))
  IsPrincipal-iff (header_principal header value) = passes _ _ (is_false (is_empty header))

  abbrev pub IsPolicy : Text × RbacPolicy → Type 0
  IsPolicy (name, policy) =
      IsName (as_bytes name)
      & ((is_empty policy.permissions ≡ false) & (is_empty policy.principals ≡ false))
      & All IsPermission policy.permissions
      & All IsPrincipal policy.principals

  IsPolicy-iff :
      (p : Text × RbacPolicy) → (validate_policy ip_family parse_u8 p ≡ ok tt) ↔ IsPolicy p
  unfolding validate_policy
  IsPolicy-iff (name, policy) = both (validate_name_iff name) (
      both
        (passes _ _ (
          neither (is_false (is_empty policy.permissions)) (is_false (is_empty policy.principals))))
        (both (each policy.permissions IsPermission-iff) (each policy.principals IsPrincipal-iff)))

  abbrev pub IsRbac : RbacConfig → Type 0
  IsRbac c = (is_empty c.policies ≡ false) & All IsPolicy c.policies

  pub validate_rbac_iff : (c : RbacConfig) → (validate_rbac ip_family parse_u8 c ≡ ok tt) ↔ IsRbac c
  unfolding validate_rbac
  validate_rbac_iff c =
      both (passes _ _ (is_false (is_empty c.policies))) (each c.policies IsPolicy-iff)
