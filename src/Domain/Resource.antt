-- ===== src/Domain/Resource.antt =====
-- Every authorizable resource kind (crates/fp-domain/src/authz.rs).
use Prim.Native.String.{String}
use text.Mathlib.Text.{◌==◌ as str_eq}
use flowplane.Base.{
  ℕ, ◌≡◌, refl, ap, ◌↔◌, Bool, true, false, List, [], ◌∷◌, some, Eq, find, get_elem?, nat_eq,
  nat_eq_iff,
}
use flowplane.Domain.Error.{DomainResult, ok_or, validation}

pub data Resource : Type 0 where
  organizations users teams audit platform : Resource
  clusters route_configs listeners filters secrets dataplanes proxy_certificates agents : Resource
  grants api_definitions learning_sessions mcp_tools rate_limits : Resource
  ai_providers ai_routes ai_budgets ai_usage stats : Resource

-- `ALL_RESOURCES`, in the order of the declaration.
abbrev pub all_resources : List Resource
all_resources =
    organizations ∷ users ∷ teams ∷ audit ∷ platform ∷ clusters ∷ route_configs ∷ listeners
    ∷ filters ∷ secrets ∷ dataplanes ∷ proxy_certificates ∷ agents ∷ grants ∷ api_definitions
    ∷ learning_sessions ∷ mcp_tools ∷ rate_limits ∷ ai_providers ∷ ai_routes ∷ ai_budgets ∷ ai_usage
    ∷ stats ∷ []

-- The position of a variant, by which the derived equality tells the variants apart.
abbrev pub tag : Resource → ℕ
tag organizations = 0
tag users = 1
tag teams = 2
tag audit = 3
tag platform = 4
tag clusters = 5
tag route_configs = 6
tag listeners = 7
tag filters = 8
tag secrets = 9
tag dataplanes = 10
tag proxy_certificates = 11
tag agents = 12
tag grants = 13
tag api_definitions = 14
tag learning_sessions = 15
tag mcp_tools = 16
tag rate_limits = 17
tag ai_providers = 18
tag ai_routes = 19
tag ai_budgets = 20
tag ai_usage = 21
tag stats = 22

tag-get_elem? : (r : Resource) → get_elem? all_resources (tag r) ≡ some r
tag-get_elem? organizations = refl
tag-get_elem? users = refl
tag-get_elem? teams = refl
tag-get_elem? audit = refl
tag-get_elem? platform = refl
tag-get_elem? clusters = refl
tag-get_elem? route_configs = refl
tag-get_elem? listeners = refl
tag-get_elem? filters = refl
tag-get_elem? secrets = refl
tag-get_elem? dataplanes = refl
tag-get_elem? proxy_certificates = refl
tag-get_elem? agents = refl
tag-get_elem? grants = refl
tag-get_elem? api_definitions = refl
tag-get_elem? learning_sessions = refl
tag-get_elem? mcp_tools = refl
tag-get_elem? rate_limits = refl
tag-get_elem? ai_providers = refl
tag-get_elem? ai_routes = refl
tag-get_elem? ai_budgets = refl
tag-get_elem? ai_usage = refl
tag-get_elem? stats = refl

eq_of_tag : (r s : Resource) → tag r ≡ tag s → r ≡ s
eq_of_tag r s h = cc (tag-get_elem? r, tag-get_elem? s, ap (get_elem? all_resources) h)

pub tag_eq_iff : (r s : Resource) → (nat_eq (tag r) (tag s) ≡ true) ↔ (r ≡ s)
tag_eq_iff r s = (λ h. eq_of_tag r s ((nat_eq_iff _ _).0 h), λ e. (nat_eq_iff _ _).1 (ap tag e))

instance abbrev pub Resource-Eq : Eq Resource
Resource-Eq = record { eq = λ r s. nat_eq (tag r) (tag s); eq_iff = tag_eq_iff }

unfoldable pub as_str : Resource → String
as_str organizations = "organizations"
as_str users = "users"
as_str teams = "teams"
as_str audit = "audit"
as_str platform = "platform"
as_str clusters = "clusters"
as_str route_configs = "route-configs"
as_str listeners = "listeners"
as_str filters = "filters"
as_str secrets = "secrets"
as_str dataplanes = "dataplanes"
as_str proxy_certificates = "proxy-certificates"
as_str agents = "agents"
as_str grants = "grants"
as_str api_definitions = "api-definitions"
as_str learning_sessions = "learning-sessions"
as_str mcp_tools = "mcp-tools"
as_str rate_limits = "rate-limits"
as_str ai_providers = "ai-providers"
as_str ai_routes = "ai-routes"
as_str ai_budgets = "ai-budgets"
as_str ai_usage = "ai-usage"
as_str stats = "stats"

unfoldable pub parse : String → DomainResult Resource
unfolding as_str
parse raw =
    ok_or (find (λ r. str_eq (as_str r) raw) all_resources)
      (validation "\"{raw}\" is not a known resource")

-- Governance resources are never team-scoped; everything else is a tenant resource.
unfoldable pub is_governance : Resource → Bool
is_governance organizations = true
is_governance users = true
is_governance teams = true
is_governance audit = true
is_governance platform = true
is_governance _ = false
