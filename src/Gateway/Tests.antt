-- ===== src/Gateway/Tests.antt =====
-- The gateway theorems at concrete specifications.
use flowplane.Base.{
  ℕ, ◌≡◌, ◌↔◌, refl, Bool, true, false, ◌||◌, List, [], ◌∷◌, Option, none, some, Text, chars,
  is_empty, len, contains_text, contains_char, strip_prefix, to_ascii_lowercase, is_control,
}
use flowplane.Domain.Error.{ok}
use flowplane.Domain.Name.{validate_name}
use flowplane.Gateway.Filters.Validate.{validate_compressor}
use flowplane.Gateway.Cluster.{ClusterSpec, Endpoint, LbPolicy}
use flowplane.Gateway.Cluster.Validate.{validate_cluster, is_some}
use flowplane.Gateway.Accepted.{IsCluster, validate_cluster_iff}
use flowplane.Gateway.Filters.{
  FilterOverride, disable_override, HttpFilterSpec, compressor_filter, HttpFilterEntry,
  JwtAuthConfig, HttpFilterKind,
}
use flowplane.Gateway.Filters as Filters
use flowplane.Gateway.Filters.Security.{IpFamily, validate_jwt_auth}
use flowplane.Gateway.Filters.Chain.{validate_filter_overrides}
use flowplane.Gateway.Scopes.{AreOverrides, validate_filter_overrides_iff}
use flowplane.Gateway.SecurityRules.{IsJwtAuth, validate_jwt_auth_iff}
use flowplane.Gateway.Matchers.{PathMatch, prefix}
use flowplane.Gateway.RouteConfig.{
  RouteAction, RouteRule, VirtualHost, RouteConfigSpec, action_clusters,
}
use flowplane.Gateway.RouteConfig.Validate.{validate_action}
use flowplane.Gateway.RouteConfig.Hosts.{validate_route_config}
use flowplane.Gateway.Routes.{IsRouteConfig, validate_route_config_iff, action_clusters_iff}
use flowplane.Gateway.Listener.{ListenerSpec, http, validate_listener}
use flowplane.Gateway.Listeners.{IsListener, validate_listener_iff}

abbrev endpoint : Endpoint
endpoint = record { host = chars "api.internal.example"; port = 8_443; weight = some 10 }

abbrev cluster : ClusterSpec
cluster = record {
  endpoints = endpoint ∷ [];
  aggregate_clusters = [];
  lb_policy = LbPolicy.round_robin;
  least_request = none;
  ring_hash = none;
  maglev = none;
  dns_lookup_family = none;
  connect_timeout_secs = 5;
  use_tls = true;
  upstream_tls = none;
  protocol = none;
  health_checks = none;
  circuit_breakers = none;
  outlier_detection = none;
}

cluster_accepted : validate_cluster cluster ≡ ok tt
unfolding validate_cluster len contains_text
cluster_accepted = refl

validate_cluster_iff_example : (validate_cluster cluster ≡ ok tt) ↔ IsCluster cluster
validate_cluster_iff_example = validate_cluster_iff cluster

abbrev overrides : List FilterOverride
overrides = disable_override (chars "cors") ∷ disable_override (chars "jwt_auth") ∷ []

overrides_accepted : validate_filter_overrides overrides ≡ ok tt
unfolding validate_filter_overrides Filters.parse_kind
overrides_accepted = refl

validate_filter_overrides_iff_example :
    (validate_filter_overrides overrides ≡ ok tt) ↔ AreOverrides overrides
validate_filter_overrides_iff_example = validate_filter_overrides_iff overrides

abbrev no_family : Text → Option IpFamily
no_family s = none

abbrev no_number : Text → Option ℕ
no_number s = none

abbrev entry : HttpFilterEntry
entry = record {
  filter =
      compressor_filter
        (record { memory_level = some 5; window_bits = none; compression_level = none });
  disabled = false;
}

abbrev jwt : JwtAuthConfig
jwt = record {
  providers =
      (
        chars "okta",
        record {
          issuer = none;
          audiences = [];
          jwks = Filters.inline (chars "{\"keys\": []}");
          clock_skew_seconds = 60;
          forward = false;
        },
      )
      ∷ [];
  requirement_map = (chars "any", Filters.any_of (chars "okta" ∷ [])) ∷ [];
  rules = [];
  bypass_cors_preflight = false;
}

validate_jwt_auth_iff_example : (validate_jwt_auth jwt ≡ ok tt) ↔ IsJwtAuth jwt
validate_jwt_auth_iff_example = validate_jwt_auth_iff jwt

abbrev action : RouteAction
action = record {
  cluster = some (chars "orders");
  weighted_clusters = none;
  redirect = none;
  direct_response = none;
  prefix_rewrite = none;
  template_rewrite = none;
  timeout_secs = 15;
  retry_policy = none;
  rate_limits = [];
}

abbrev matcher : PathMatch
matcher = prefix (chars "/orders")

action_accepted : validate_action action matcher ≡ ok tt
unfolding validate_action validate_name
action_accepted = refl

action_clusters_iff_example :
    (is_empty (action_clusters action) ≡ true)
    ↔ ((is_some action.redirect || is_some action.direct_response) ≡ true)
action_clusters_iff_example = action_clusters_iff action matcher action_accepted

abbrev rule : RouteRule
rule = record {
  name = chars "orders-read";
  matcher = matcher;
  headers = [];
  query_parameters = [];
  action = action;
  filter_overrides = overrides;
}

abbrev vhost : VirtualHost
vhost = record {
  name = chars "shop";
  domains = chars "shop.example" ∷ chars "*.shop.example" ∷ [];
  routes = rule ∷ [];
  rate_limits = [];
  filter_overrides = [];
}

abbrev routes : RouteConfigSpec
routes = record { virtual_hosts = vhost ∷ [] }

routes_accepted : validate_route_config routes ≡ ok tt
unfolding validate_route_config Filters.parse_kind validate_name strip_prefix len contains_text
    to_ascii_lowercase contains_char
routes_accepted = refl

validate_route_config_iff_example : (validate_route_config routes ≡ ok tt) ↔ IsRouteConfig routes
validate_route_config_iff_example = validate_route_config_iff routes

abbrev is_any : Text → Bool
is_any s = true

abbrev listener : ListenerSpec
listener = record {
  address = chars "0.0.0.0";
  port = 10_000;
  public_base_url = some (chars "https://api.shop.example/");
  protocol = http;
  route_config = some (chars "shop");
  http_filters = entry ∷ [];
  access_logs = [];
  tls_context = none;
}

listener_accepted : validate_listener is_any is_any no_family no_number listener ≡ ok tt
unfolding validate_listener contains_char len is_control validate_name validate_compressor
listener_accepted = refl

validate_listener_iff_example :
    (validate_listener is_any is_any no_family no_number listener ≡ ok tt)
    ↔ IsListener is_any is_any no_family no_number listener
validate_listener_iff_example = validate_listener_iff is_any is_any no_family no_number listener
