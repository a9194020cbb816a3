-- ===== src/Plan/Routes.antt =====
-- The routes of a plan (`openapi_routes` of crates/fp-core/src/services/route_generation.rs), from the
-- operations on, which the source collects from the description, ordered by path and method.
use flowplane.Base.{
  ℕ, ◌-◌, false, List, [], ◌∷◌, ◌++◌, Option, none, some, Text, is_empty, chars, map, if◌then◌else◌,
}
use flowplane.Domain.Error.{DomainResult, ok, err, validation}
use flowplane.Domain.Name.{hyphen, is_lowercase}
use flowplane.Gateway.Matchers.{template, exact_value}
use flowplane.Gateway.RouteConfig.{RouteRule}
use flowplane.Plan.Names.{normalize_name, unique_name}

-- An entry of `operations`.
pub record Operation : Type 0 where
  pub path : Text
  pub method : Text
  pub operation_id : Text

unfoldable pub to_ascii_uppercase : Text → Text
to_ascii_uppercase s = map (λ c. if is_lowercase c then c - 32 else c) s

unfoldable pub route_rule : Text → Operation → Text → RouteRule
route_rule cluster_name op name = record {
  name = name;
  matcher = template op.path;
  headers =
      record {
        name = chars ":method";
        invert_match = false;
        matcher = exact_value (to_ascii_uppercase op.method);
      }
      ∷ [];
  query_parameters = [];
  action = record {
    cluster = some cluster_name;
    weighted_clusters = none;
    redirect = none;
    direct_response = none;
    prefix_rewrite = none;
    template_rewrite = none;
    timeout_secs = 15;
    retry_policy = none;
    rate_limits = [];
  };
  filter_overrides = [];
}

module _ (to_lowercase : ℕ → Text) where
  unfoldable pub base_name : Operation → Text
  base_name op =
      if is_empty op.operation_id
      then normalize_name to_lowercase (op.method ++ hyphen ∷ op.path)
      else normalize_name to_lowercase op.operation_id

  module _ (cluster_name : Text) where
    -- `None` says that a search for a name did not end.
    unfoldable pub routes_from : List Text → List Operation → Option (List RouteRule)
    routes_from names [] = some []
    routes_from names (op ∷ operations) = elim (unique_name (base_name op) names) [
      | none ↦ none
      | some name ↦ elim (routes_from (name ∷ names) operations) [
        | none ↦ none
        | some routes ↦ some (route_rule cluster_name op name ∷ routes)
      ]
    ]

    unfoldable pub openapi_routes : List Operation → Option (DomainResult (List RouteRule))
    openapi_routes [] = some (err (validation "OpenAPI spec must contain at least one operation"))
    openapi_routes (op ∷ operations) = elim (routes_from [] (op ∷ operations)) [
      | none ↦ none
      | some routes ↦ some (ok routes)
    ]
