-- ===== src/Authz/Policy.antt =====
-- The access policy as rules, independent of the order in which the engine tests them
-- (spec/05-auth.md, section 3.1): a principal may act exactly when one of these applies.
use flowplane.Base.{◌≡◌, ◌≢◌, ◌⊎◌, true, false, Option, none, some}
use flowplane.Domain.Identity.{OrgId, TeamId, TeamRef}
use flowplane.Domain.OrgRole.{OrgRole, is_org_admin}
use flowplane.Domain.AgentKind.{api_consumer, gateway_tool}
use flowplane.Domain.Resource.{Resource, mcp_tools, is_governance}
use flowplane.Domain.Action.{Action, read}
use flowplane.Authz.Grants.{Granted}
use flowplane.Authz.Principal.{PrincipalCtx, user, agent, User, Agent}

-- The kind of agent that may use its grants on this resource.
pub record MayUseGrants (a : Agent) (resource : Resource) : Type 0 where
  pub not_consumer : a.kind ≢ api_consumer
  pub only_mcp_tools : a.kind ≡ gateway_tool → resource ≡ mcp_tools

abbrev pub IsGovernance : Resource → Type 0
IsGovernance resource = is_governance resource ≡ true

abbrev pub IsTenant : Resource → Type 0
IsTenant resource = is_governance resource ≡ false

abbrev pub IsAdminRole : OrgRole → Type 0
IsAdminRole role = is_org_admin role ≡ true

-- A user on a named team: a member of its org, with the row or as an admin of that org.
abbrev pub UserMayTeam : User → Resource → Action → TeamRef → Type 0
UserMayTeam u resource action team =
    (role : OrgRole) × (u.org ≡ some (team.org_id, role))
    × (Granted u.grants resource action team.id ⊎ IsAdminRole role × IsTenant resource)

-- A user of some org with no team named: governance reads, and tenant resources for its admins.
abbrev pub OrgMayAny : User → Resource → Action → Type 0
OrgMayAny u resource action =
    (o : OrgId × OrgRole) × (u.org ≡ some o)
    × ((action ≡ read) × IsGovernance resource ⊎ IsAdminRole o.1 × IsTenant resource)

abbrev pub UserMayAny : User → Resource → Action → Type 0
UserMayAny u resource action =
    ((t : TeamId) × Granted u.grants resource action t) ⊎ OrgMayAny u resource action

abbrev pub UserMay : User → Resource → Action → Option TeamRef → Type 0
UserMay u resource action (some team) = UserMayTeam u resource action team
UserMay u resource action none = UserMayAny u resource action

abbrev pub AgentMay : Agent → Resource → Action → Option TeamRef → Type 0
AgentMay a resource action (some team) =
    (team.org_id ≡ a.org_id) × Granted a.grants resource action team.id
AgentMay a resource action none = (t : TeamId) × Granted a.grants resource action t

abbrev pub MayAccess : PrincipalCtx → Resource → Action → Option TeamRef → Type 0
MayAccess (user u) resource action team =
    (u.platform_admin ≡ true) × IsGovernance resource ⊎ UserMay u resource action team
MayAccess (agent a) resource action team = MayUseGrants a resource × AgentMay a resource action team
