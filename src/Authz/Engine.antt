-- ===== src/Authz/Engine.antt =====
-- `check_resource_access`, the single gate, and `deny_to_error`.
use flowplane.Base.{
  [], ◌∷◌, Bool, true, false, not, ◌&&◌, Option, none, some, ◌==◌, nat_eq, if◌then◌else◌,
}
use Prim.Native.String.{String, ◌++◌ as append}
use flowplane.Domain.Resource
use flowplane.Domain.Action
use flowplane.Domain.Error.{DomainError, new, with_hint, with_details, not_found, forbidden}
use flowplane.Domain.Identity.{OrgId, TeamRef}
use flowplane.Domain.OrgRole.{OrgRole, is_org_admin}
use flowplane.Domain.AgentKind.{AgentKind, cp_tool, gateway_tool, api_consumer}
use flowplane.Domain.Resource.{Resource, mcp_tools, is_governance, Resource-Eq}
use flowplane.Domain.Action.{Action, read, Action-Eq}
use flowplane.Authz.Grants.{GrantSet, has, has_any_team}
use flowplane.Authz.Principal.{
  PrincipalCtx, user, agent, User, Reason, platform_governance, grant_match,
  org_admin_implicit_team, any_team_grant, governance_read, org_admin_tenant_default,
  agent_structurally_denied, cross_org, reason_str, governance_write_requires_platform_admin,
  tenant_resource_invisible_to_platform_admin, no_matching_grant, Decision, allow, deny,
}

-- The match on the team that the gateway-tool arm and the cp-tool arm both end in.
unfoldable pub grants_only : OrgId → GrantSet → Resource → Action → Option TeamRef → Decision
grants_only org_id grants resource action (some team_ref) =
    if not (nat_eq team_ref.org_id org_id)
    then deny cross_org
    else if has grants resource action team_ref.id
    then allow grant_match
    else deny no_matching_grant
grants_only org_id grants resource action none =
    if has_any_team grants resource action then allow any_team_grant else deny no_matching_grant

-- Step 0: the arms that return for an agent.
unfoldable pub check_agent :
    AgentKind → OrgId → GrantSet → Resource → Action → Option TeamRef → Decision
unfolding grants_only
check_agent gateway_tool org_id grants resource action team =
    if resource == mcp_tools
    then grants_only org_id grants resource action team
    else deny agent_structurally_denied
check_agent api_consumer org_id grants resource action team = deny agent_structurally_denied
check_agent cp_tool org_id grants resource action team =
    grants_only org_id grants resource action team

-- The last arm of both team cases: no org that could carry the access.
unfoldable pub invisible : Bool → Decision
invisible platform_admin =
    if platform_admin
    then deny tenant_resource_invisible_to_platform_admin
    else deny no_matching_grant

-- Step 2: a named team.
unfoldable pub check_team :
    Bool → Option (OrgId × OrgRole) → GrantSet → Resource → Action → TeamRef → Decision
unfolding invisible
check_team platform_admin (some (org_id, role)) grants resource action team_ref =
    if not (nat_eq org_id team_ref.org_id)
    then deny cross_org
    else if has grants resource action team_ref.id
    then allow grant_match
    else if is_org_admin role && not (is_governance resource)
    then allow org_admin_implicit_team
    else deny no_matching_grant
check_team platform_admin none grants resource action team_ref = invisible platform_admin

abbrev is_some {ℓ} : {A : Type ℓ} → Option A → Bool
is_some none = false
is_some (some a) = true

-- Step 3c: a tenant resource with no team.
unfoldable pub check_tenant_default : Bool → Option (OrgId × OrgRole) → Decision
unfolding invisible
check_tenant_default platform_admin none = invisible platform_admin
check_tenant_default platform_admin (some (org_id, role)) =
    if is_org_admin role then allow org_admin_tenant_default else invisible platform_admin

-- Step 3: no team.
unfoldable pub check_any_team :
    Bool → Option (OrgId × OrgRole) → GrantSet → Resource → Action → Decision
unfolding check_tenant_default
check_any_team platform_admin org grants resource action =
    if has_any_team grants resource action
    then allow any_team_grant
    else if is_governance resource
    then if action == read && is_some org
      then allow governance_read
      else deny governance_write_requires_platform_admin
    else check_tenant_default platform_admin org

unfoldable pub check_user_team : User → Resource → Action → Option TeamRef → Decision
unfolding check_team check_any_team
check_user_team u resource action (some team_ref) =
    check_team u.platform_admin u.org u.grants resource action team_ref
check_user_team u resource action none =
    check_any_team u.platform_admin u.org u.grants resource action

unfoldable pub check_resource_access : PrincipalCtx → Resource → Action → Option TeamRef → Decision
unfolding check_agent check_user_team
check_resource_access (agent a) resource action team =
    check_agent a.kind a.org_id a.grants resource action team
check_resource_access (user u) resource action team =
    if u.platform_admin && is_governance resource
    then allow platform_governance
    else check_user_team u resource action team

-- The permission that a denied caller lacks.
abbrev pub permission : Resource → Action → String
permission resource action = append (Resource.as_str resource) (append ":" (Action.as_str action))

-- Only a cross-org denial renders as `not_found`.
unfoldable pub deny_to_error : Resource → Action → Reason → DomainError
deny_to_error resource action cross_org = new not_found "not found"
deny_to_error resource action reason =
    with_details
      (with_hint (new forbidden (append "missing permission: " (permission resource action)))
        (append "ask a team or org admin for a " (append (permission resource action) " grant")))
      (("reason", reason_str reason) ∷ [])
