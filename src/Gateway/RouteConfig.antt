-- ===== src/Gateway/RouteConfig.antt =====
-- Route configurations: virtual hosts, routes and their actions
-- (crates/fp-domain/src/gateway/route_config.rs).
pub mod Validate
pub mod Hosts
use flowplane.Base.{ℕ, Bool, List, [], ◌∷◌, ◌++◌, Option, none, some, Text, map}
use flowplane.Gateway.Filters.{FilterOverride}
use flowplane.Gateway.Matchers.{PathMatch, HeaderMatch, QueryParameterMatch}

abbrev pub max_domains_per_vhost : ℕ
max_domains_per_vhost = 50

abbrev pub max_vhosts : ℕ
max_vhosts = 50

abbrev pub max_routes_per_vhost : ℕ
max_routes_per_vhost = 200

pub record WeightedClusterTarget : Type 0 where
  pub cluster : Text
  pub weight : ℕ

pub record DirectResponseAction : Type 0 where
  pub status : ℕ
  pub body : Option Text

pub record RetryPolicy : Type 0 where
  pub retry_on : Text
  pub num_retries : Option ℕ
  pub per_try_timeout_secs : Option ℕ
  pub retriable_status_codes : List ℕ
  pub previous_priorities_retry : Bool

pub data RateLimitAction : Type 0 where
  request_headers : (header_name descriptor_key : Text) (skip_if_absent : Bool) → RateLimitAction
  generic_key : (descriptor_value : Text) (descriptor_key : Option Text) → RateLimitAction

pub record RateLimitDefinition : Type 0 where
  pub stage : Option ℕ
  pub disable_key : Option Text
  pub actions : List RateLimitAction

pub data RedirectResponseCode : Type 0 where
  moved_permanently found see_other temporary_redirect permanent_redirect : RedirectResponseCode

pub record RedirectAction : Type 0 where
  pub host_redirect : Option Text
  pub scheme_redirect : Option Text
  pub https_redirect : Option Bool
  pub path_redirect : Option Text
  pub prefix_rewrite : Option Text
  pub response_code : Option RedirectResponseCode
  pub strip_query : Bool

pub record RouteAction : Type 0 where
  pub cluster : Option Text
  pub weighted_clusters : Option (List WeightedClusterTarget)
  pub redirect : Option RedirectAction
  pub direct_response : Option DirectResponseAction
  pub prefix_rewrite : Option Text
  pub template_rewrite : Option Text
  pub timeout_secs : ℕ
  pub retry_policy : Option RetryPolicy
  pub rate_limits : List RateLimitDefinition

pub record RouteRule : Type 0 where
  pub name : Text
  pub matcher : PathMatch
  pub headers : List HeaderMatch
  pub query_parameters : List QueryParameterMatch
  pub action : RouteAction
  pub filter_overrides : List FilterOverride

pub record VirtualHost : Type 0 where
  pub name : Text
  pub domains : List Text
  pub routes : List RouteRule
  pub rate_limits : List RateLimitDefinition
  pub filter_overrides : List FilterOverride

pub record RouteConfigSpec : Type 0 where
  pub virtual_hosts : List VirtualHost

abbrev pub to_list : Option Text → List Text
to_list none = []
to_list (some name) = name ∷ []

abbrev pub targets : Option (List WeightedClusterTarget) → List Text
targets none = []
targets (some weighted) = map (λ t. t.cluster) weighted

-- `RouteAction::referenced_clusters`, and the names that a whole configuration refers to, as a list
-- with repetitions where the source collects a set.
abbrev pub action_clusters : RouteAction → List Text
action_clusters action = to_list action.cluster ++ targets action.weighted_clusters

abbrev pub route_clusters : List RouteRule → List Text
route_clusters [] = []
route_clusters (rule ∷ rules) = action_clusters rule.action ++ route_clusters rules

abbrev pub vhost_clusters : List VirtualHost → List Text
vhost_clusters [] = []
vhost_clusters (vhost ∷ vhosts) = route_clusters vhost.routes ++ vhost_clusters vhosts

abbrev pub referenced_clusters : RouteConfigSpec → List Text
referenced_clusters spec = vhost_clusters spec.virtual_hosts
