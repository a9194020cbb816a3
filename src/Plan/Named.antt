-- ===== src/Plan/Named.antt =====
-- The routes of a plan: one for each operation, each under a name of its own.
use flowplane.Base.{false, ◌≡◌, refl, List, [], ◌∷◌, some, Text, ap, map, All, List-Eq, ℕ-Eq, ℕ}
use flowplane.Domain.Error.{ok}
use flowplane.Domain.Checks.{seen_before, Distinct, not_seen}
use flowplane.Gateway.Matchers.{template}
use flowplane.Gateway.RouteConfig.{RouteRule}
use flowplane.Plan.Routes.{Operation, route_rule, base_name, routes_from, openapi_routes}
use flowplane.Plan.Fresh.{unique_name-IsNew}

-- The routes match the paths of the operations, in order, and no name comes twice or is one of those
-- that were there.
record Named (names : List Text) (operations : List Operation) (routes : List RouteRule)
    : Type 0 where
  paths : map (λ r. r.matcher) routes ≡ map (λ op. template op.path) operations
  distinct : Distinct (map (λ r. r.name) routes)
  new : All (λ name. seen_before name names ≡ false) (map (λ r. r.name) routes)

module _ (to_lowercase : ℕ → Text) (cluster_name : Text) where
  cons_Named :
      (names : List Text) (op : Operation) (operations : List Operation) (name : Text)
      (routes : List RouteRule)
      → seen_before name names ≡ false
      → Named (name ∷ names) operations routes
      → Named names (op ∷ operations) (route_rule cluster_name op name ∷ routes)
  unfolding route_rule
  cons_Named names op operations name routes fresh n =
      let (absent, new) = (not_seen name names (map (λ r. r.name) routes)).0 n.new in
      record {
        paths = ap (λ ps. template op.path ∷ ps) n.paths;
        distinct = (absent, n.distinct);
        new = (fresh, new);
      }

  routes_from-Named :
      (names : List Text) (operations : List Operation)
      → (routes : List RouteRule) × (routes_from to_lowercase cluster_name names operations
          ≡ some routes)
        × Named names operations routes
  unfolding routes_from
  routes_from-Named names [] = ([], refl, record { paths = refl; distinct = tt; new = tt })
  routes_from-Named names (op ∷ operations) =
      let (name, found, fresh) = unique_name-IsNew (base_name to_lowercase op) names in
      let (routes, rest, n) = routes_from-Named (name ∷ names) operations in
      (
        route_rule cluster_name op name ∷ routes,
        rw (routes_from, found, rest) refl,
        cons_Named names op operations name routes fresh n,
      )

  -- A plan with an operation comes to routes: the searches for names end, each operation has the route
  -- of its path, in order, and the names of the routes differ, as a virtual host asks.
  pub openapi_routes-IsNamed :
      (op : Operation) (operations : List Operation)
      → (routes : List RouteRule) × (openapi_routes to_lowercase cluster_name (op ∷ operations)
          ≡ some (ok routes))
        × (map (λ r. r.matcher) routes ≡ map (λ o. template o.path) (op ∷ operations))
        × Distinct (map (λ r. r.name) routes)
  unfolding openapi_routes
  openapi_routes-IsNamed op operations =
      let (routes, found, n) = routes_from-Named [] (op ∷ operations) in
      (routes, rw (openapi_routes, found) refl, n.paths, n.distinct)
