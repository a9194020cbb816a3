-- ===== src/Authz/Principal.antt =====
-- Who is asking, and the decisions the engine returns (`PrincipalCtx`, `Reason`, `Decision`).
use Prim.Native.String.{String}
use flowplane.Base.{Bool, true, false, Option, none, some}
use flowplane.Domain.Identity.{OrgId, UserId, AgentId}
use flowplane.Domain.OrgRole.{OrgRole}
use flowplane.Domain.AgentKind.{AgentKind}
use flowplane.Authz.Grants.{GrantSet}

pub record User : Type 0 where
  pub user_id : UserId
  pub platform_admin : Bool
  pub org : Option (OrgId × OrgRole)
  pub org_selector_required : Bool
  pub grants : GrantSet

pub record Agent : Type 0 where
  pub agent_id : AgentId
  pub kind : AgentKind
  pub org_id : OrgId
  pub grants : GrantSet

pub data PrincipalCtx : Type 0 where
  user : User → PrincipalCtx
  agent : Agent → PrincipalCtx

unfoldable pub is_platform_admin : PrincipalCtx → Bool
is_platform_admin (user u) = u.platform_admin
is_platform_admin (agent a) = false

unfoldable pub user_id : PrincipalCtx → Option UserId
user_id (user u) = some u.user_id
user_id (agent a) = none

pub data Reason : Type 0 where
  platform_governance grant_match org_admin_implicit_team any_team_grant : Reason
  governance_read org_admin_tenant_default : Reason
  agent_structurally_denied cross_org governance_write_requires_platform_admin : Reason
  tenant_resource_invisible_to_platform_admin no_matching_grant : Reason

-- The stable wire string.
unfoldable pub reason_str : Reason → String
reason_str platform_governance = "platform_governance"
reason_str grant_match = "grant_match"
reason_str org_admin_implicit_team = "org_admin_implicit_team"
reason_str any_team_grant = "any_team_grant"
reason_str governance_read = "governance_read"
reason_str org_admin_tenant_default = "org_admin_tenant_default"
reason_str agent_structurally_denied = "agent_structurally_denied"
reason_str cross_org = "cross_org"
reason_str governance_write_requires_platform_admin = "governance_write_requires_platform_admin"
reason_str tenant_resource_invisible_to_platform_admin =
    "tenant_resource_invisible_to_platform_admin"
reason_str no_matching_grant = "no_matching_grant"

pub data Decision : Type 0 where
  allow : Reason → Decision
  deny : Reason → Decision

unfoldable pub is_allowed : Decision → Bool
is_allowed (allow r) = true
is_allowed (deny r) = false

unfoldable pub reason : Decision → Reason
reason (allow r) = r
reason (deny r) = r
