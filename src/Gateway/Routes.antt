-- ===== src/Gateway/Routes.antt =====
-- Which route configurations are accepted, and the clusters that an accepted one refers to.
use flowplane.Base.{
  ◌+◌, ◌≤◌, ◌≡◌, ◌↔◌, Bool, true, false, ◌||◌, List, [], ◌∷◌, ◌++◌, map, Option, none, some, Text,
  length, is_empty, All, All-append, as_bytes, to_ascii_lowercase, arith, to_ascii_lowercase,
}
use flowplane.Domain.Error.{ok}
use flowplane.Domain.Checks.{
  Given, ◌&◌, Distinct, both, passes, each_fresh, fresh_iff, neither, holds, is_false, at_most,
}
use flowplane.Domain.Name.{validate_name}
use flowplane.Domain.Grammar.{IsName, validate_name_iff}
use flowplane.Gateway.Cluster.Validate.{is_some}
use flowplane.Gateway.Scopes.{AreOverrides, validate_filter_overrides_iff}
use flowplane.Gateway.Matchers.{
  PathMatch, HeaderMatch, QueryParameterMatch, validate_header_match, validate_query_match,
}
use flowplane.Gateway.RouteConfig.{
  max_domains_per_vhost, max_vhosts, max_routes_per_vhost, WeightedClusterTarget, RouteAction,
  RouteRule, VirtualHost, RouteConfigSpec, to_list, targets, action_clusters, route_clusters,
  vhost_clusters, referenced_clusters,
}
use flowplane.Gateway.RouteConfig.Validate.{one_if, valid_domain, validate_action}
use flowplane.Gateway.RouteConfig.Hosts.{
  validate_rule, check_domain, validate_vhost, validate_route_config,
}
use flowplane.Gateway.MatchRules.{
  IsPathMatch, path_match_iff, IsHeaderMatch, header_match_iff, IsQueryMatch, IsQueryMatch-iff,
  AreRateLimits, rate_limits_iff,
}
use flowplane.Gateway.RouteRules.{IsTarget, AreTargets, IsAction, IsAction-iff}

abbrev header_key : HeaderMatch → Text
header_key h = to_ascii_lowercase h.name

abbrev query_key : QueryParameterMatch → Text
query_key q = q.name

abbrev pub IsRule : RouteRule → Type 0
IsRule rule =
    IsPathMatch rule.matcher
    & (All IsHeaderMatch rule.headers × Distinct (map header_key rule.headers))
    & (All IsQueryMatch rule.query_parameters × Distinct (map query_key rule.query_parameters))
    & IsAction rule.action rule.matcher
    & AreOverrides rule.filter_overrides

validate_rule_iff : (rule : RouteRule) → (validate_rule rule ≡ ok tt) ↔ IsRule rule
unfolding validate_rule
validate_rule_iff rule = both (path_match_iff rule.matcher) (
    both (fresh_iff validate_header_match header_key _ header_match_iff rule.headers) (
      both (fresh_iff validate_query_match query_key _ IsQueryMatch-iff rule.query_parameters) (
        both (IsAction-iff rule.action rule.matcher)
          (validate_filter_overrides_iff rule.filter_overrides))))

domain_iff : (domain : Text) → (check_domain domain ≡ ok tt) ↔ (valid_domain domain ≡ true)
unfolding check_domain
domain_iff domain = passes _ _ (holds (valid_domain domain))

abbrev rule_name : RouteRule → Text
rule_name rule = rule.name

abbrev pub IsVhost : VirtualHost → Type 0
IsVhost vhost =
    ((is_empty vhost.domains ≡ false) × (length vhost.domains ≤ max_domains_per_vhost))
    & (All (λ d. valid_domain d ≡ true) vhost.domains
        × Distinct (map to_ascii_lowercase vhost.domains))
    & AreRateLimits vhost.rate_limits
    & AreOverrides vhost.filter_overrides
    & ((is_empty vhost.routes ≡ false) × (length vhost.routes ≤ max_routes_per_vhost))
    & (All (λ rule. IsName (as_bytes rule.name) × IsRule rule) vhost.routes
        × Distinct (map rule_name vhost.routes))

validate_vhost_iff : (vhost : VirtualHost) → (validate_vhost vhost ≡ ok tt) ↔ IsVhost vhost
unfolding validate_vhost
validate_vhost_iff vhost =
    both
      (passes _ _ (
        neither (is_false (is_empty vhost.domains))
          (at_most (length vhost.domains) max_domains_per_vhost)))
      (both (fresh_iff check_domain to_ascii_lowercase _ domain_iff vhost.domains) (
        both (rate_limits_iff vhost.rate_limits) (
          both (validate_filter_overrides_iff vhost.filter_overrides) (
            both
              (passes _ _ (
                neither (is_false (is_empty vhost.routes))
                  (at_most (length vhost.routes) max_routes_per_vhost)))
              (each_fresh (λ rule. validate_name rule.name) rule_name _ validate_rule
                (λ rule. validate_name_iff rule.name) validate_rule_iff vhost.routes)))))

abbrev vhost_name : VirtualHost → Text
vhost_name vhost = vhost.name

abbrev pub IsRouteConfig : RouteConfigSpec → Type 0
IsRouteConfig spec =
    (is_empty spec.virtual_hosts ≡ false)
    & (length spec.virtual_hosts ≤ max_vhosts)
    & (All (λ vhost. IsName (as_bytes vhost.name) × IsVhost vhost) spec.virtual_hosts
        × Distinct (map vhost_name spec.virtual_hosts))

-- A route configuration is accepted exactly when it has 1 to 50 virtual hosts of different valid names,
-- each with 1 to 50 valid domains that differ up to case, well-formed rate limits and overrides, and 1
-- to 200 routes of different valid names, and in each route the matchers are well-formed, no header, up
-- to case, and no query parameter is matched twice, the action has exactly one target and only what
-- goes with it, and the overrides are well-formed.
pub validate_route_config_iff :
    (spec : RouteConfigSpec) → (validate_route_config spec ≡ ok tt) ↔ IsRouteConfig spec
unfolding validate_route_config
validate_route_config_iff spec = both (passes _ _ (is_false (is_empty spec.virtual_hosts))) (
    both (passes _ _ (at_most (length spec.virtual_hosts) max_vhosts)) (
      each_fresh (λ vhost. validate_name vhost.name) vhost_name _ validate_vhost
        (λ vhost. validate_name_iff vhost.name) validate_vhost_iff spec.virtual_hosts))

abbrev pub Named : Text → Type 0
Named name = IsName (as_bytes name)

to_list-Named : (o : Option Text) → Given o Named → All Named (to_list o)
to_list-Named none h = tt
to_list-Named (some name) h = (h, tt)

target_names :
    (ws : List WeightedClusterTarget) → All IsTarget ws → All Named (map (λ t. t.cluster) ws)
target_names [] h = tt
target_names (t ∷ ws) ((name, weight), hs) = (name, target_names ws hs)

targets-Named :
    (o : Option (List WeightedClusterTarget)) → Given o AreTargets → All Named (targets o)
targets-Named none h = tt
targets-Named (some ws) (size, ((each_one, distinct), total)) = target_names ws each_one

route_clusters-Named :
    (rules : List RouteRule)
    → All (λ rule. IsName (as_bytes rule.name) × IsRule rule) rules
    → All Named (route_clusters rules)
route_clusters-Named [] h = tt
route_clusters-Named (rule ∷ rules) ((_, (_, (_, (_, ((_, (one, (many, _))), _))))), hs) =
    All-append Named (action_clusters rule.action) (route_clusters rules)
      (All-append Named (to_list rule.action.cluster) (targets rule.action.weighted_clusters)
        (to_list-Named rule.action.cluster one) (targets-Named rule.action.weighted_clusters many))
      (route_clusters-Named rules hs)

vhost_clusters-Named :
    (vhosts : List VirtualHost)
    → All (λ vhost. IsName (as_bytes vhost.name) × IsVhost vhost) vhosts
    → All Named (vhost_clusters vhosts)
vhost_clusters-Named [] h = tt
vhost_clusters-Named (vhost ∷ vhosts) ((_, (_, (_, (_, (_, (_, (rules, _))))))), hs) =
    All-append Named (route_clusters vhost.routes) (vhost_clusters vhosts)
      (route_clusters-Named vhost.routes rules) (vhost_clusters-Named vhosts hs)

-- Every cluster that an accepted route configuration refers to has a valid name.
pub referenced_clusters-Named :
    (spec : RouteConfigSpec)
    → validate_route_config spec ≡ ok tt
    → All Named (referenced_clusters spec)
referenced_clusters-Named spec h =
    let (_, (_, (vhosts, _))) = (validate_route_config_iff spec).0 h in
    vhost_clusters-Named spec.virtual_hosts vhosts

no_clusters :
    (c : Option Text) (w : Option (List WeightedClusterTarget)) (r d : Bool)
    → one_if (is_some c) + one_if (is_some w) + one_if r + one_if d ≡ 1
    → Given w AreTargets
    → (is_empty (to_list c ++ targets w) ≡ true) ↔ ((r || d) ≡ true)
no_clusters none none r d one h = ground arith
no_clusters none (some []) r d one ((bad, small), rest) = cc
no_clusters none (some (t ∷ ws)) r d one h = ground arith
no_clusters (some name) w r d one h = ground arith

-- An accepted action refers to no cluster exactly when it is a redirect or a direct response.
pub action_clusters_iff :
    (action : RouteAction) (matcher : PathMatch)
    → validate_action action matcher ≡ ok tt
    → (is_empty (action_clusters action) ≡ true)
      ↔ ((is_some action.redirect || is_some action.direct_response) ≡ true)
action_clusters_iff action matcher h =
    let (one, (_, (weighted, _))) = (IsAction-iff action matcher).0 h in
    no_clusters action.cluster action.weighted_clusters (is_some action.redirect)
      (is_some action.direct_response) one weighted
