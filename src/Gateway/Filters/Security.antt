-- ===== src/Gateway/Filters/Security.antt =====
-- The validation of the security filters (crates/fp-domain/src/gateway/filters.rs).
use flowplane.Base.{
  ℕ, Bool, false, not, ◌&&◌, ◌||◌, List, [], ◌∷◌, Option, none, some, Text, chars, retain, is_empty,
  if◌then◌else◌, leb, ltb, nat_eq, len, starts_with, split_once, Dict, lookup, List-Eq, ℕ-Eq,
}
use flowplane.Domain.Error.{DomainResult, ok, validation, with_hint, reject_if, ◌>>◌}
use flowplane.Domain.Checks.{for_each}
use flowplane.Domain.Name.{validate_name}
use flowplane.Gateway.Cluster.Validate.{is_some}
use flowplane.Gateway.Filters.{
  JwksSource, remote, inline, JwtProvider, JwtRequirement, provider, any_of, JwtRule, JwtAuthConfig,
  ExtAuthzConfig, RbacPermission, any_permission, header_permission, url_path, destination_port,
  RbacPrincipal, any_principal, source_cidr, header_principal, RbacPolicy, RbacConfig,
}

abbrev pub contains_key {ℓ} : {V : Type ℓ} → Text → Dict Text V → Bool
contains_key key dict = is_some (lookup key dict)

unfoldable pub validate_jwks : JwksSource → DomainResult (Unit {0})
validate_jwks (remote uri cluster timeout_ms cache) = do
  reject_if (not (starts_with uri (chars "https://")) && not (starts_with uri (chars "http://")))
      (validation "jwt_auth provider \"{name}\": jwks uri must be http(s)")
  validate_name cluster
  reject_if (nat_eq timeout_ms 0 || ltb 60_000 timeout_ms)
      (validation "jwt_auth provider \"{name}\": timeout_ms must be 1..=60000")
validate_jwks (inline jwks) =
    reject_if (is_empty jwks || ltb 65_536 (len jwks))
      (validation "jwt_auth provider \"{name}\": inline jwks must be 1..=65536 bytes")

unfoldable pub validate_provider : Text × JwtProvider → DomainResult (Unit {0})
unfolding validate_jwks
validate_provider (name, p) = validate_name name >> validate_jwks p.jwks

abbrev pub missing : Dict Text JwtProvider → JwtRequirement → List Text
missing providers (provider name) = if contains_key name providers then [] else name ∷ []
missing providers (any_of names) = retain (λ n. not (contains_key n providers)) names
missing providers _ = []

unfoldable pub requirement_providers_exist :
    Dict Text JwtProvider → JwtRequirement → DomainResult (Unit {0})
requirement_providers_exist providers req =
    reject_if (not (is_empty (missing providers req)))
      (validation "jwt_auth: requirement references unknown providers: {}")

abbrev pub is_empty_any_of : JwtRequirement → Bool
is_empty_any_of (any_of names) = is_empty names
is_empty_any_of _ = false

unfoldable pub validate_requirement :
    Dict Text JwtProvider → Text × JwtRequirement → DomainResult (Unit {0})
unfolding requirement_providers_exist
validate_requirement providers (name, req) = do
  validate_name name
  reject_if (is_empty_any_of req)
      (validation "jwt_auth requirement \"{name}\": any_of needs at least one provider")
  requirement_providers_exist providers req

unfoldable pub validate_rule : Dict Text JwtRequirement → JwtRule → DomainResult (Unit {0})
validate_rule requirement_map rule =
    reject_if (not (contains_key rule.requirement_name requirement_map)) (
      with_hint (validation "jwt_auth rule references unknown requirement \"{}\"")
        "declare it in requirement_map")

unfoldable pub validate_jwt_auth : JwtAuthConfig → DomainResult (Unit {0})
unfolding validate_provider validate_requirement validate_rule
validate_jwt_auth c = do
  reject_if (is_empty c.providers) (validation "jwt_auth: at least one provider is required")
  for_each validate_provider c.providers
  for_each (validate_requirement c.providers) c.requirement_map
  for_each (validate_rule c.requirement_map) c.rules

unfoldable pub validate_ext_authz : ExtAuthzConfig → DomainResult (Unit {0})
validate_ext_authz c = do
  validate_name c.cluster
  reject_if (nat_eq c.timeout_ms 0 || ltb 60_000 c.timeout_ms)
      (validation "ext_authz: timeout_ms must be 1..=60000")

unfoldable pub validate_permission : RbacPermission → DomainResult (Unit {0})
validate_permission (header_permission header value) =
    reject_if (is_empty header) (validation "rbac: header permission needs a header name")
validate_permission (url_path path) =
    reject_if (not (starts_with path (chars "/")))
      (validation "rbac: url_path prefix must start with '/'")
validate_permission (destination_port port) =
    reject_if (nat_eq port 0) (validation "rbac: destination_port must be >= 1")
validate_permission any_permission = ok tt

-- What the code reads of a parsed address: its family.
pub data IpFamily : Type 0 where
  v4 v6 : IpFamily

module _ (ip_family : Text → Option IpFamily) (parse_u8 : Text → Option ℕ) where
  abbrev pub valid_cidr_parts : Text → Text → Bool
  valid_cidr_parts ip length_text = elim (parse_u8 length_text) [
    | none ↦ false
    | some length ↦ elim (ip_family ip) [
      | none ↦ false
      | some family ↦ elim family [ v4 ↦ leb length 32 | v6 ↦ leb length 128 ]
    ]
  ]

  unfoldable pub valid_cidr : Text → Bool
  valid_cidr cidr = elim (split_once (chars "/") cidr) [
    | none ↦ false
    | some (ip, length_text) ↦ valid_cidr_parts ip length_text
  ]

  unfoldable pub validate_principal : RbacPrincipal → DomainResult (Unit {0})
  validate_principal (source_cidr cidr) =
      reject_if (not (valid_cidr cidr)) (validation "rbac: \"{cidr}\" is not a valid CIDR")
  validate_principal (header_principal header value) =
      reject_if (is_empty header) (validation "rbac: header principal needs a header name")
  validate_principal any_principal = ok tt

  unfoldable pub validate_policy : Text × RbacPolicy → DomainResult (Unit {0})
  unfolding validate_permission validate_principal
  validate_policy (name, policy) = do
    validate_name name
    reject_if (is_empty policy.permissions || is_empty policy.principals)
        (validation "rbac policy \"{name}\": permissions and principals must be non-empty")
    for_each validate_permission policy.permissions
    for_each validate_principal policy.principals

  unfoldable pub validate_rbac : RbacConfig → DomainResult (Unit {0})
  unfolding validate_policy
  validate_rbac c = do
    reject_if (is_empty c.policies) (validation "rbac: at least one policy is required")
    for_each validate_policy c.policies
