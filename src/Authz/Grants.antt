-- ===== src/Authz/Grants.antt =====
-- The principal's grant rows, keyed like the `grants` table. A `HashSet` is a list of rows.
use mathlib.Core.List.{Memᴰ}
use flowplane.Base.{
  any_sound, any_complete, subst, ◌≡◌, refl, ◌↔◌, Bool, true, ◌&&◌, List, ◌==◌, nat_eq, nat_eq_iff,
  any, arith,
}
use flowplane.Domain.Identity.{TeamId}
use flowplane.Domain.Resource.{Resource, Resource-Eq}
use flowplane.Domain.Resource
use flowplane.Domain.Action.{Action, Action-Eq}
use flowplane.Domain.Action

abbrev pub Grant : Type 0
Grant = Resource × Action × TeamId

pub record GrantSet : Type 0 where
  pub grants : List Grant

abbrev grant_eq : Grant → Resource → Action → TeamId → Bool
grant_eq (r, a, t) resource action team = r == resource && a == action && nat_eq t team

unfoldable pub has : GrantSet → Resource → Action → TeamId → Bool
has gs resource action team = any (λ g. grant_eq g resource action team) gs.grants

unfoldable pub has_any_team : GrantSet → Resource → Action → Bool
has_any_team gs resource action = any (λ g. g.0 == resource && g.1 == action) gs.grants

-- A row for exactly this resource, action and team.
abbrev pub Granted : GrantSet → Resource → Action → TeamId → Type 0
Granted gs resource action team = Memᴰ (resource, action, team) gs.grants

grant_eq_iff :
    (g : Grant) (r : Resource) (a : Action) (t : TeamId)
    → (grant_eq g r a t ≡ true) ↔ (g ≡ (r, a, t))
grant_eq_iff (r', a', t') r a t =
    ground (arith, Resource.tag_eq_iff r' r, Action.tag_eq_iff a' a, nat_eq_iff t' t)

-- `has` answers whether the exact row is there.
pub has_iff :
    (gs : GrantSet) (r : Resource) (a : Action) (t : TeamId)
    → (has gs r a t ≡ true) ↔ Granted gs r a t
unfolding has
has_iff gs r a t = (
  λ h.
      let (g, m, e) = any_sound (λ g. grant_eq g r a t) gs.grants h in
      subst (λ x. Memᴰ x gs.grants) ((grant_eq_iff g r a t).0 e) m,
  λ m. any_complete (λ g. grant_eq g r a t) gs.grants m ((grant_eq_iff _ r a t).1 refl),
)

-- `has_any_team` answers whether there is a row for some team.
pub has_any_team_iff :
    (gs : GrantSet) (r : Resource) (a : Action)
    → (has_any_team gs r a ≡ true) ↔ ((t : TeamId) × Granted gs r a t)
unfolding has_any_team
has_any_team_iff gs r a = (
  λ h.
      let (g, m, e) = any_sound (λ g. g.0 == r && g.1 == a) gs.grants h in
      (g.2, subst (λ x. Memᴰ x gs.grants) (same g e) m),
  λ (t, m). any_complete (λ g. g.0 == r && g.1 == a) gs.grants m (itself t),
)
  where
    same : (g : Grant) → (g.0 == r && g.1 == a) ≡ true → g ≡ (r, a, g.2)
    same (r', a', t') e = ground (arith, Resource.tag_eq_iff r' r, Action.tag_eq_iff a' a)

    itself : (t : TeamId) → (r == r && a == a) ≡ true
    itself t = ground (arith, Resource.tag_eq_iff r r, Action.tag_eq_iff a a)
