-- ===== src/Gateway/RouteConfig/Validate.antt =====
-- The validation of route configurations (crates/fp-domain/src/gateway/route_config.rs).
use flowplane.Base.{
  ℕ, ◌+◌, Bool, true, false, not, ◌&&◌, ◌||◌, List, [], ◌∷◌, Option, none, some, Text, chars,
  length, all, any, is_empty, leb, ltb, nat_eq, is_control, is_whitespace, is_ascii_alphanumeric,
  len, contains_text, strip_prefix, split, starts_with, ends_with_char, ◌==◌, List-Eq, ℕ-Eq,
}
use flowplane.Domain.Error.{DomainResult, ok, err, validation, reject_if, ◌>>◌}
use flowplane.Domain.Checks.{if_some, for_each, for_each_fresh}
use flowplane.Domain.Name.{validate_name}
use flowplane.Gateway.Cluster.Validate.{is_some}
use flowplane.Gateway.Matchers.{PathMatch, template, valid_token, valid_path, valid_match_value}
use flowplane.Gateway.RouteConfig.{
  WeightedClusterTarget, DirectResponseAction, RetryPolicy, RateLimitAction, request_headers,
  generic_key, RateLimitDefinition, RedirectAction, RouteAction,
}

abbrev pub is_label_char : ℕ → Bool
is_label_char c = is_ascii_alphanumeric c || nat_eq c 45

-- One label of a host name.
unfoldable pub valid_label : Text → Bool
unfolding starts_with
valid_label label =
    not (is_empty label)
    && leb (len label) 63
    && all is_label_char label
    && not (starts_with label (chars "-"))
    && not (ends_with_char 45 label)

abbrev pub or_whole : Option Text → Text → Text
or_whole none whole = whole
or_whole (some rest) whole = rest

unfoldable pub valid_body : Text → Text → Bool
unfolding valid_label split
valid_body body domain =
    not (is_empty body)
    && leb (len domain) 253
    && not (contains_text body (chars ".."))
    && all valid_label (split 46 body)

unfoldable pub valid_domain : Text → Bool
unfolding valid_body
valid_domain domain =
    domain == chars "*" || valid_body (or_whole (strip_prefix domain (chars "*.")) domain) domain

unfoldable pub validate_rate_limit_action : RateLimitAction → DomainResult (Unit {0})
unfolding valid_token valid_match_value
validate_rate_limit_action (request_headers header_name descriptor_key skip) = do
  valid_token "rate_limits.request_headers.header_name" header_name
  valid_token "rate_limits.request_headers.descriptor_key" descriptor_key
validate_rate_limit_action (generic_key descriptor_value descriptor_key) = do
  valid_match_value "rate_limits.generic_key.descriptor_value" descriptor_value
  if_some descriptor_key (λ key. valid_token "rate_limits.generic_key.descriptor_key" key)

unfoldable pub validate_rate_limit : RateLimitDefinition → DomainResult (Unit {0})
unfolding validate_rate_limit_action
validate_rate_limit limit = do
  if_some limit.stage
      (λ stage. reject_if (ltb 10 stage) (validation "rate_limits.stage must be in 0..=10"))
  if_some limit.disable_key (λ key. valid_token "rate_limits.disable_key" key)
  reject_if (is_empty limit.actions || ltb 16 (length limit.actions))
      (validation "rate_limits.actions must contain 1-16 actions")
  for_each validate_rate_limit_action limit.actions

unfoldable pub validate_rate_limits : List RateLimitDefinition → DomainResult (Unit {0})
unfolding validate_rate_limit
validate_rate_limits rate_limits = do
  reject_if (ltb 32 (length rate_limits))
      (validation "rate_limits must contain at most 32 definitions")
  for_each validate_rate_limit rate_limits

abbrev pub too_long : Option Text → Bool
too_long none = false
too_long (some body) = ltb 4_096 (len body)

unfoldable pub validate_direct_response : DirectResponseAction → DomainResult (Unit {0})
validate_direct_response action = do
  reject_if (ltb action.status 100 || ltb 599 action.status)
      (validation "direct_response.status must be an HTTP status code")
  reject_if (too_long action.body) (validation "direct_response.body must be <= 4096 bytes")

unfoldable pub check_weight : WeightedClusterTarget → DomainResult (Unit {0})
check_weight target =
    reject_if (nat_eq target.weight 0 || ltb 10_000 target.weight)
      (validation "weighted cluster weights must be 1-10000")

-- The sum that the loop over the targets keeps.
abbrev pub target_total : List WeightedClusterTarget → ℕ
target_total [] = 0
target_total (t ∷ targets) = t.weight + target_total targets

unfoldable pub validate_weighted_clusters : List WeightedClusterTarget → DomainResult (Unit {0})
unfolding check_weight
validate_weighted_clusters weighted = do
  reject_if (is_empty weighted || ltb 32 (length weighted))
      (validation "weighted_clusters must contain 1-32 targets")
  for_each_fresh (λ t. validate_name t.cluster) (λ t. t.cluster)
      (validation "duplicate weighted cluster \"{}\"") check_weight [] weighted
  reject_if (ltb 10_000 (target_total weighted))
      (validation "weighted cluster total weight must be <= 10000")

unfoldable pub check_retriable : ℕ → DomainResult (Unit {0})
check_retriable status =
    reject_if (not (leb 100 status && ltb status 600))
      (validation "retry_policy.retriable_status_codes must be HTTP status codes 100-599")

unfoldable pub validate_retry_policy : RetryPolicy → ℕ → DomainResult (Unit {0})
unfolding check_retriable
validate_retry_policy retry route_timeout_secs = do
  reject_if
      (is_empty retry.retry_on
        || ltb 200 (len retry.retry_on)
        || any (λ c. is_control c || is_whitespace c || nat_eq c 0) retry.retry_on)
      (validation "retry_policy.retry_on must be comma-separated non-whitespace tokens")
  if_some retry.num_retries
      (λ n. reject_if (nat_eq n 0 || ltb 10 n) (validation "retry_policy.num_retries must be 1-10"))
  if_some retry.per_try_timeout_secs (λ per_try.
      reject_if (nat_eq per_try 0 || ltb route_timeout_secs per_try)
        (validation "retry_policy.per_try_timeout_secs must be 1..timeout_secs"))
  for_each check_retriable retry.retriable_status_codes

-- `usize::from` of a test.
abbrev pub one_if : Bool → ℕ
one_if true = 1
one_if false = 0

abbrev pub mutations : RedirectAction → ℕ
mutations r =
    one_if (is_some r.host_redirect)
    + one_if (is_some r.scheme_redirect)
    + one_if (is_some r.https_redirect)
    + one_if (is_some r.path_redirect)
    + one_if (is_some r.prefix_rewrite)

unfoldable pub validate_redirect : RedirectAction → DomainResult (Unit {0})
unfolding valid_token valid_path
validate_redirect redirect = do
  reject_if (nat_eq (mutations redirect) 0)
      (validation "redirect must change host, scheme, or path")
  if_some redirect.host_redirect (λ host. valid_token "redirect host" host)
  if_some redirect.scheme_redirect (λ scheme.
      reject_if (not (scheme == chars "http") && not (scheme == chars "https"))
        (validation "redirect scheme_redirect must be http or https"))
  reject_if (is_some redirect.scheme_redirect && is_some redirect.https_redirect)
      (validation "redirect scheme_redirect and https_redirect are mutually exclusive")
  reject_if
      (ltb 1 (one_if (is_some redirect.path_redirect) + one_if (is_some redirect.prefix_rewrite)))
      (validation "redirect path_redirect and prefix_rewrite are mutually exclusive")
  if_some redirect.path_redirect (λ path. valid_path "redirect path_redirect" path)
  if_some redirect.prefix_rewrite (λ prefix. valid_path "redirect prefix_rewrite" prefix)

abbrev pub is_template : PathMatch → Bool
is_template (template t) = true
is_template _ = false

abbrev pub terminal_actions : RouteAction → ℕ
terminal_actions action =
    one_if (is_some action.cluster)
    + one_if (is_some action.weighted_clusters)
    + one_if (is_some action.redirect)
    + one_if (is_some action.direct_response)

-- What a redirect or a direct response cannot be combined with.
abbrev pub forwards : RouteAction → Bool
forwards action =
    is_some action.prefix_rewrite
    || is_some action.template_rewrite
    || is_some action.retry_policy
    || not (is_empty action.rate_limits)

unfoldable pub check_rewrites : Option Text → Option Text → Bool → DomainResult (Unit {0})
unfolding valid_path
check_rewrites (some p) (some t) from_template = err (
    validation "route \"{route_name}\": prefix_rewrite and template_rewrite are mutually exclusive")
check_rewrites (some rewrite) none from_template = do
  reject_if from_template
      (validation "route \"{route_name}\": prefix_rewrite cannot be used with a template match")
  valid_path "prefix_rewrite" rewrite
check_rewrites none (some rewrite) from_template = do
  reject_if (not from_template)
      (validation "route \"{route_name}\": template_rewrite requires a template match")
  valid_path "template_rewrite" rewrite
check_rewrites none none from_template = ok tt

unfoldable pub validate_action : RouteAction → PathMatch → DomainResult (Unit {0})
unfolding validate_weighted_clusters validate_redirect validate_direct_response check_rewrites
    validate_retry_policy validate_rate_limits
validate_action action matcher = do
  reject_if (not (nat_eq (terminal_actions action) 1)) (
      validation
        "route \"{route_name}\": exactly one of cluster, weighted_clusters, redirect, or direct_response is required")
  if_some action.cluster validate_name
  if_some action.weighted_clusters validate_weighted_clusters
  if_some action.redirect (λ redirect. do
    validate_redirect redirect
    reject_if (forwards action) (
        validation
          "route \"{route_name}\": redirect cannot combine with route rewrites, retry_policy, or rate_limits"))
  if_some action.direct_response (λ direct. do
    validate_direct_response direct
    reject_if (forwards action) (
        validation
          "route \"{route_name}\": direct_response cannot combine with route rewrites, retry_policy, or rate_limits"))
  check_rewrites action.prefix_rewrite action.template_rewrite (is_template matcher)
  reject_if (ltb action.timeout_secs 1 || ltb 300 action.timeout_secs)
      (validation "route \"{route_name}\": timeout_secs must be 1-300")
  if_some action.retry_policy (λ retry. validate_retry_policy retry action.timeout_secs)
  validate_rate_limits action.rate_limits
