-- ===== src/Authz/Tests.antt =====
-- Runs of the engine, and its theorems at concrete principals.
use flowplane.Base.{◌≡◌, ◌≢◌, refl, ◌↔◌, true, false, none, some, [], ◌∷◌}
use flowplane.Domain.Identity.{OrgId, TeamRef}
use flowplane.Domain.Error.{not_found, new}
use flowplane.Domain.OrgRole.{owner, is_org_admin}
use flowplane.Domain.AgentKind.{gateway_tool}
use flowplane.Domain.Resource.{clusters, mcp_tools, is_governance}
use flowplane.Domain.Action.{read, execute, create}
use flowplane.Authz.Grants.{has, has_any_team}
use flowplane.Authz.Principal.{
  user, agent, User, Agent, deny, allow, cross_org, any_team_grant, is_allowed, grant_match,
  org_admin_implicit_team, reason,
}
use flowplane.Authz.Engine.{check_resource_access, check_user_team, check_team, deny_to_error}
use flowplane.Authz.Policy.{MayAccess}
use flowplane.Authz.Sound.{check_iff}
use flowplane.Authz.Boundary.{org_of, check-org, deny_to_error-not_found_iff}

abbrev own_team : TeamRef
own_team = record { id = 10; org_id = 1 }

abbrev foreign_team : TeamRef
foreign_team = record { id = 20; org_id = 2 }

abbrev org_owner : User
org_owner = record {
  user_id = 7;
  platform_admin = false;
  org = some (1, owner);
  org_selector_required = false;
  grants = record { grants = (clusters, read, 20) ∷ [] };
}

abbrev orgless : User
orgless = record {
  user_id = 8;
  platform_admin = false;
  org = none;
  org_selector_required = true;
  grants = record { grants = (clusters, read, 20) ∷ [] };
}

abbrev platform_owner : User
platform_owner = record {
  user_id = 9;
  platform_admin = true;
  org = none;
  org_selector_required = false;
  grants = record { grants = [] };
}

abbrev tool : Agent
tool = record {
  agent_id = 5;
  kind = gateway_tool;
  org_id = 1;
  grants = record { grants = (mcp_tools, execute, 10) ∷ [] };
}

owner_runs :
    (check_resource_access (user org_owner) clusters create (some own_team)
      ≡ allow org_admin_implicit_team)
    × (check_resource_access (user org_owner) clusters read (some foreign_team) ≡ deny cross_org)
unfolding check_resource_access has is_org_admin is_governance
owner_runs = (refl, refl)

tool_runs :
    (check_resource_access (agent tool) mcp_tools execute (some own_team) ≡ allow grant_match)
    × (check_resource_access (agent tool) mcp_tools execute none ≡ allow any_team_grant)
unfolding check_resource_access has has_any_team
tool_runs = (refl, refl)

check_iff_example :
    (is_allowed (check_resource_access (agent tool) mcp_tools execute (some own_team)) ≡ true)
    ↔ MayAccess (agent tool) mcp_tools execute (some own_team)
check_iff_example = check_iff (agent tool) mcp_tools execute (some own_team)

check-org_example : org_of (user org_owner) ≡ some 1
unfolding check_resource_access has is_org_admin is_governance is_allowed
check-org_example = check-org (user org_owner) clusters create own_team refl refl

deny_to_error-not_found_iff_example :
    (deny_to_error clusters read
        (reason (check_resource_access (user org_owner) clusters read (some foreign_team)))
      ≡ new not_found "not found")
    ↔ ((o : OrgId) × (org_of (user org_owner) ≡ some o) × (o ≢ foreign_team.org_id))
unfolding check_resource_access is_allowed check_user_team check_team
deny_to_error-not_found_iff_example =
    deny_to_error-not_found_iff org_owner clusters read foreign_team refl
