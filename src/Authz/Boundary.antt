-- ===== src/Authz/Boundary.antt =====
-- What the policy keeps apart: orgs, platform and tenant resources, users and agents; and what a
-- denied caller learns.
use mathlib.Core.List.{Memᴰ}
use flowplane.Base.{
  ◌≡◌, ◌≢◌, ◌↔◌, inl, inr, true, false, Option, none, some, List, [], ◌∷◌, ◌++◌, arith,
  Option-cases,
}
use flowplane.Domain.Error.{not_found, new}
use flowplane.Domain.Identity.{OrgId, TeamId, TeamRef}
use flowplane.Domain.Resource.{Resource}
use flowplane.Domain.Action.{Action}
use flowplane.Authz.Grants.{Grant, GrantSet, Granted, has_any_team, has_any_team_iff}
use flowplane.Authz.Principal.{
  PrincipalCtx, user, agent, User, Agent, allow, any_team_grant, is_allowed, reason,
}
use flowplane.Authz.Engine.{
  invisible, check_resource_access, check_agent, check_team, check_any_team, check_user_team,
  deny_to_error,
}
use flowplane.Authz.Policy.{IsTenant, MayAccess}
use flowplane.Authz.Sound.{check_iff}

-- The org that a principal acts in.
abbrev pub org_of : PrincipalCtx → Option OrgId
org_of (user u) = elim u.org [ none ↦ none | some o ↦ some o.0 ]
org_of (agent g) = some g.org_id

-- The rows that a principal holds.
abbrev pub rows_of : PrincipalCtx → GrantSet
rows_of (user u) = u.grants
rows_of (agent g) = g.grants

MayAccess-org :
    (ctx : PrincipalCtx) (r : Resource) (a : Action) (t : TeamRef)
    → IsTenant r
    → MayAccess ctx r a (some t)
    → org_of ctx ≡ some t.org_id
MayAccess-org (user u) r a t tenant (inl (p, g)) = cc
MayAccess-org (user u) r a t tenant (inr (role, e, _)) = rw e
MayAccess-org (agent g) r a t tenant (_, (e, _)) = cc

-- Tenant isolation: whoever is allowed to act on a tenant resource of a team acts in the org that
-- owns the team.
pub check-org :
    (ctx : PrincipalCtx) (r : Resource) (a : Action) (t : TeamRef)
    → IsTenant r
    → is_allowed (check_resource_access ctx r a (some t)) ≡ true
    → org_of ctx ≡ some t.org_id
check-org ctx r a t tenant h = MayAccess-org ctx r a t tenant ((check_iff ctx r a (some t)).0 h)

-- The same principal with more rows.
abbrev pub with_rows : PrincipalCtx → List Grant → PrincipalCtx
with_rows (user u) gs = user (record u { grants = record { grants = gs ++ u.grants.grants } })
with_rows (agent g) gs = agent (record g { grants = record { grants = gs ++ g.grants.grants } })

Memᴰ-append_right : {x : Grant} (gs : List Grant) {hs : List Grant} → Memᴰ x hs → Memᴰ x (gs ++ hs)
Memᴰ-append_right [] m = m
Memᴰ-append_right (g ∷ gs) m = Memᴰ.tail (Memᴰ-append_right gs m)

MayAccess-with_rows :
    (ctx : PrincipalCtx) (gs : List Grant) (r : Resource) (a : Action) (team : Option TeamRef)
    → MayAccess ctx r a team
    → MayAccess (with_rows ctx gs) r a team
MayAccess-with_rows (user u) gs r a team (inl h) = inl h
MayAccess-with_rows (user u) gs r a (some t) (inr (role, e, inl m)) =
    inr (role, e, inl (Memᴰ-append_right gs m))
MayAccess-with_rows (user u) gs r a (some t) (inr (role, e, inr h)) = inr (role, e, inr h)
MayAccess-with_rows (user u) gs r a none (inr (inl (t, m))) = inr (inl (t, Memᴰ-append_right gs m))
MayAccess-with_rows (user u) gs r a none (inr (inr h)) = inr (inr h)
MayAccess-with_rows (agent g) gs r a (some t) (k, (e, m)) = (
  record { not_consumer = k.not_consumer; only_mcp_tools = k.only_mcp_tools },
  (e, Memᴰ-append_right gs m),
)
MayAccess-with_rows (agent g) gs r a none (k, (t, m)) = (
  record { not_consumer = k.not_consumer; only_mcp_tools = k.only_mcp_tools },
  (t, Memᴰ-append_right gs m),
)

-- Adding grant rows never takes an access away.
pub check-with_rows :
    (ctx : PrincipalCtx) (gs : List Grant) (r : Resource) (a : Action) (team : Option TeamRef)
    → is_allowed (check_resource_access ctx r a team) ≡ true
    → is_allowed (check_resource_access (with_rows ctx gs) r a team) ≡ true
check-with_rows ctx gs r a team h =
    (check_iff (with_rows ctx gs) r a team).1
      (MayAccess-with_rows ctx gs r a team ((check_iff ctx r a team).0 h))

-- An agent is allowed nothing without a grant row for that very resource and action.
pub check_agent-Granted :
    (g : Agent) (r : Resource) (a : Action) (team : Option TeamRef)
    → is_allowed (check_resource_access (agent g) r a team) ≡ true
    → (t : TeamId) × Granted g.grants r a t
check_agent-Granted g r a (some t) h = (t.id, ((check_iff (agent g) r a (some t)).0 h).1.1)
check_agent-Granted g r a none h = ((check_iff (agent g) r a none).0 h).1

-- Without an org and without a row, a user (a platform admin too) gets no tenant resource.
pub no_org-denied :
    (u : User) (r : Resource) (a : Action) (team : Option TeamRef)
    → u.org ≡ none
    → u.grants.grants ≡ []
    → IsTenant r
    → is_allowed (check_resource_access (user u) r a team) ≡ false
unfolding check_resource_access check_user_team check_team check_any_team is_allowed has_any_team
no_org-denied u r a (some t) e g tenant = ground arith
no_org-denied u r a none e g tenant = ground arith

-- A denied user on a team gets the bare `not_found`, which names neither the resource nor the action
-- nor the team, exactly when it acts in another org than the team's.
pub deny_to_error-not_found_iff :
    (u : User) (r : Resource) (a : Action) (t : TeamRef)
    → is_allowed (check_resource_access (user u) r a (some t)) ≡ false
    → (deny_to_error r a (reason (check_resource_access (user u) r a (some t)))
        ≡ new not_found "not found")
      ↔ ((o : OrgId) × (org_of (user u) ≡ some o) × (o ≢ t.org_id))
unfolding check_resource_access check_user_team check_team invisible is_allowed deny_to_error reason
deny_to_error-not_found_iff u r a t h = elim (Option-cases u.org) [
  | inl e ↦ (λ k. ground arith, λ (o, f, ne). ground arith)
  | inr (o, e) ↦ (λ k. (o.0, rw e, ground arith), λ (o', f, ne). ground arith)
]

-- An agent that is denied on a team with `not_found` acts in another org than the team's.
pub deny_to_error-agent :
    (g : Agent) (r : Resource) (a : Action) (t : TeamRef)
    → (deny_to_error r a (reason (check_resource_access (agent g) r a (some t)))).code ≡ not_found
    → g.org_id ≢ t.org_id
unfolding check_resource_access check_agent deny_to_error reason
deny_to_error-agent g r a t h = ground arith

-- The comment in the engine says that without a resolved org every tenant path denies. A list request
-- (no team) is allowed all the same, for every user with some row for the resource and action.
pub no_org-any_team :
    (u : User) (r : Resource) (a : Action) (t : TeamId)
    → u.org ≡ none
    → IsTenant r
    → Granted u.grants r a t
    → check_resource_access (user u) r a none ≡ allow any_team_grant
unfolding check_resource_access check_user_team check_any_team
no_org-any_team u r a t e tenant m = rw ((has_any_team_iff u.grants r a).1 (t, m)) (ground arith)
