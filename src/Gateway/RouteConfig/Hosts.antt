-- ===== src/Gateway/RouteConfig/Hosts.antt =====
-- The loops over virtual hosts, domains and routes (crates/fp-domain/src/gateway/route_config.rs).
use flowplane.Base.{◌||◌, not, [], Text, length, is_empty, ltb, to_ascii_lowercase}
use flowplane.Domain.Error.{DomainResult, ok, validation, reject_if, ◌>>◌}
use flowplane.Domain.Checks.{for_each_fresh}
use flowplane.Domain.Name.{validate_name}
use flowplane.Gateway.Filters.Chain.{validate_filter_overrides}
use flowplane.Gateway.Matchers.{validate_path_match, validate_header_match, validate_query_match}
use flowplane.Gateway.RouteConfig.{
  max_domains_per_vhost, max_vhosts, max_routes_per_vhost, RouteRule, VirtualHost, RouteConfigSpec,
}
use flowplane.Gateway.RouteConfig.Validate.{valid_domain, validate_rate_limits, validate_action}

-- The body of the loop over the routes, past the test for a second route of the name.
unfoldable pub validate_rule : RouteRule → DomainResult (Unit {0})
unfolding validate_path_match validate_header_match validate_query_match validate_action
    validate_filter_overrides
validate_rule rule = do
  validate_path_match rule.matcher
  for_each_fresh validate_header_match (λ h. to_ascii_lowercase h.name)
      (validation "duplicate header matcher \"{}\" in route \"{}\"") (λ h. ok tt) [] rule.headers
  for_each_fresh validate_query_match (λ q. q.name)
      (validation "duplicate query matcher \"{}\" in route \"{}\"") (λ q. ok tt) []
      rule.query_parameters
  validate_action rule.action rule.matcher
  validate_filter_overrides rule.filter_overrides

unfoldable pub check_domain : Text → DomainResult (Unit {0})
unfolding valid_domain
check_domain domain =
    reject_if (not (valid_domain domain)) (validation "\"{}\" is not a valid domain match")

-- The body of the loop over the virtual hosts, past the test for a second one of the name.
unfoldable pub validate_vhost : VirtualHost → DomainResult (Unit {0})
unfolding check_domain validate_rule
validate_vhost vhost = do
  reject_if (is_empty vhost.domains || ltb max_domains_per_vhost (length vhost.domains))
      (validation "virtual host \"{}\" needs 1-{MAX_DOMAINS_PER_VHOST} domains")
  for_each_fresh check_domain to_ascii_lowercase
      (validation "duplicate domain \"{domain}\" in virtual host \"{}\"") (λ d. ok tt) []
      vhost.domains
  validate_rate_limits vhost.rate_limits
  validate_filter_overrides vhost.filter_overrides
  reject_if (is_empty vhost.routes || ltb max_routes_per_vhost (length vhost.routes))
      (validation "virtual host \"{}\" needs 1-{MAX_ROUTES_PER_VHOST} routes")
  for_each_fresh (λ rule. validate_name rule.name) (λ rule. rule.name)
      (validation "duplicate route \"{}\" in virtual host \"{}\"") validate_rule [] vhost.routes

unfoldable pub validate_route_config : RouteConfigSpec → DomainResult (Unit {0})
unfolding validate_vhost
validate_route_config spec = do
  reject_if (is_empty spec.virtual_hosts)
      (validation "a route config needs at least one virtual host")
  reject_if (ltb max_vhosts (length spec.virtual_hosts))
      (validation "at most {MAX_VHOSTS} virtual hosts, got {}")
  for_each_fresh (λ vhost. validate_name vhost.name) (λ vhost. vhost.name)
      (validation "duplicate virtual host \"{}\"") validate_vhost [] spec.virtual_hosts
