-- ===== src/Authz/Sound.antt =====
-- The engine decides the access policy.
use flowplane.Base.{
  ◌≡◌, ◌↔◌, ◌⊎◌, inl, inr, Bool, true, ◌&&◌, Option, none, some, Bool-cases, Option-cases, arith,
}
use flowplane.Domain.Identity.{OrgId, TeamId, TeamRef}
use flowplane.Domain.OrgRole.{OrgRole}
use flowplane.Domain.Resource.{Resource, mcp_tools, is_governance}
use flowplane.Domain.Resource
use flowplane.Domain.Action.{Action, read}
use flowplane.Domain.Action
use flowplane.Authz.Grants.{GrantSet, Granted, has, has_any_team, has_iff, has_any_team_iff}
use flowplane.Authz.Principal.{PrincipalCtx, user, agent, User, Agent, is_allowed}
use flowplane.Authz.Engine.{
  grants_only, check_agent, check_team, check_any_team, check_user_team, check_resource_access,
}
use flowplane.Authz.Policy.{
  MayUseGrants, IsGovernance, IsTenant, IsAdminRole, UserMay, AgentMay, MayAccess,
}

module _ (gs : GrantSet) (r : Resource) (a : Action) where
  team_sound :
      (p : Bool) (org : Option (OrgId × OrgRole)) (t : TeamRef)
      → is_allowed (check_team p org gs r a t) ≡ true
      → (role : OrgRole) × (org ≡ some (t.org_id, role))
        × (Granted gs r a t.id ⊎ IsAdminRole role × IsTenant r)
  unfolding check_team is_allowed
  team_sound p none t h = ground arith
  team_sound p (some (o, role)) t h = (
    role,
    ground arith,
    elim (Bool-cases (has gs r a t.id)) [
      | inl row ↦ inl ((has_iff gs r a t.id).0 row)
      | inr norow ↦ inr (ground arith, ground arith)
    ],
  )

  any_team_sound :
      (p : Bool) (org : Option (OrgId × OrgRole))
      → is_allowed (check_any_team p org gs r a) ≡ true
      → ((t : TeamId) × Granted gs r a t)
        ⊎ ((o : OrgId × OrgRole) × (org ≡ some o)
            × ((a ≡ read) × IsGovernance r ⊎ IsAdminRole o.1 × IsTenant r))
  unfolding check_any_team is_allowed
  any_team_sound p org h = elim (Bool-cases (has_any_team gs r a)) [
    | inl row ↦ inl ((has_any_team_iff gs r a).0 row)
    | inr norow ↦ elim (Option-cases org) [
      | inl e ↦ ground arith
      | inr (o, e) ↦ inr (o, e, ground (arith, Action.tag_eq_iff a read))
    ]
  ]

  team_complete :
      (p : Bool) (t : TeamRef) (role : OrgRole)
      → Granted gs r a t.id ⊎ IsAdminRole role × IsTenant r
      → is_allowed (check_team p (some (t.org_id, role)) gs r a t) ≡ true
  unfolding check_team is_allowed
  team_complete p t role h = ground (arith, (has_iff gs r a t.id).1)

  any_team_complete :
      (p : Bool) (o : OrgId × OrgRole)
      → (a ≡ read) × IsGovernance r ⊎ IsAdminRole o.1 × IsTenant r
      → is_allowed (check_any_team p (some o) gs r a) ≡ true
  unfolding check_any_team is_allowed
  any_team_complete p o h = ground (arith, Action.tag_eq_iff a read)

  any_team_complete_row :
      (p : Bool) (org : Option (OrgId × OrgRole)) (t : TeamId)
      → Granted gs r a t
      → is_allowed (check_any_team p org gs r a) ≡ true
  unfolding check_any_team is_allowed
  any_team_complete_row p org t m = rw ((has_any_team_iff gs r a).1 (t, m))

user_sound :
    (u : User) (r : Resource) (a : Action) (team : Option TeamRef)
    → is_allowed (check_user_team u r a team) ≡ true
    → UserMay u r a team
unfolding check_user_team
user_sound u r a (some t) h = team_sound u.grants r a u.platform_admin u.org t h
user_sound u r a none h = any_team_sound u.grants r a u.platform_admin u.org h

user_complete :
    (u : User) (r : Resource) (a : Action) (team : Option TeamRef)
    → UserMay u r a team
    → is_allowed (check_user_team u r a team) ≡ true
unfolding check_user_team
user_complete u r a (some t) (role, e, h) =
    rw e (team_complete u.grants r a u.platform_admin t role h)
user_complete u r a none (inl (t, m)) =
    any_team_complete_row u.grants r a u.platform_admin u.org t m
user_complete u r a none (inr (o, e, h)) =
    rw e (any_team_complete u.grants r a u.platform_admin o h)

module _ (g : Agent) (r : Resource) (a : Action) where
  grants_only_iff :
      (team : Option TeamRef)
      → (is_allowed (grants_only g.org_id g.grants r a team) ≡ true) ↔ AgentMay g r a team
  unfolding grants_only is_allowed
  grants_only_iff (some t) = (
    λ h. (ground arith, (has_iff g.grants r a t.id).0 (ground arith)),
    λ h. ground (arith, (has_iff g.grants r a t.id).1 h.1),
  )
  grants_only_iff none = (
    λ h. (has_any_team_iff g.grants r a).0 (ground arith),
    λ h. rw ((has_any_team_iff g.grants r a).1 h),
  )

  agent_sound :
      (team : Option TeamRef)
      → is_allowed (check_resource_access (agent g) r a team) ≡ true
      → MayUseGrants g r × AgentMay g r a team
  unfolding check_resource_access check_agent is_allowed
  agent_sound team h = (
    ground (arith, Resource.tag_eq_iff r mcp_tools),
    (grants_only_iff team).0 (ground (arith, is_allowed)),
  )

  agent_complete :
      (team : Option TeamRef)
      → MayUseGrants g r
      → AgentMay g r a team
      → is_allowed (check_resource_access (agent g) r a team) ≡ true
  unfolding check_resource_access check_agent is_allowed
  agent_complete team k h =
      ground (arith, Resource.tag_eq_iff r mcp_tools, (grants_only_iff team).1 h)

user_iff :
    (u : User) (r : Resource) (a : Action) (team : Option TeamRef)
    → (is_allowed (check_resource_access (user u) r a team) ≡ true)
      ↔ ((u.platform_admin ≡ true) × IsGovernance r ⊎ UserMay u r a team)
unfolding check_resource_access is_allowed
user_iff u r a team = (
  λ h. elim (Bool-cases (u.platform_admin && is_governance r)) [
    | inl bypass ↦ inl (ground arith, ground arith)
    | inr none_yet ↦ inr (user_sound u r a team (rw none_yet at h))
  ],
  elim [
    | inl (p, g) ↦ rw (p, g)
    | inr m ↦ elim (Bool-cases (u.platform_admin && is_governance r)) [
      | inl bypass ↦ rw bypass
      | inr none_yet ↦ rw none_yet (user_complete u r a team m)
    ]
  ],
)

-- A request is allowed exactly when a rule of the policy grants it: governance for platform admins,
-- a grant row in the own org, an org admin's implicit access, or a governance read.
pub check_iff :
    (ctx : PrincipalCtx) (r : Resource) (a : Action) (team : Option TeamRef)
    → (is_allowed (check_resource_access ctx r a team) ≡ true) ↔ MayAccess ctx r a team
check_iff (user u) r a team = user_iff u r a team
check_iff (agent g) r a team = (agent_sound g r a team, λ (k, h). agent_complete g r a team k h)
