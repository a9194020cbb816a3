-- ===== src/Gateway/RouteRules.antt =====
-- What the validation of a route's action accepts.
use flowplane.Base.{
  ℕ, ◌+◌, ◌≤◌, ◌≡◌, ◌↔◌, ◌⊎◌, refl, false, not, ◌&&◌, List, map, Option, none, some, Text, chars,
  length, is_empty, nat_eq, ltb, All, len, any_none, as_bytes, list_eq_iff, List-Eq, ℕ-Eq, ◌==◌,
  inl, inr, arith,
}
use flowplane.Domain.Error.{ok}
use flowplane.Domain.Checks.{
  Given, ◌&◌, Distinct, both, passes, if_present, each, each_fresh, neither, none_of_three,
  none_of_four, split_or, is_false, at_most, positive,
}
use flowplane.Domain.Name.{validate_name}
use flowplane.Domain.Grammar.{IsName, validate_name_iff}
use flowplane.Gateway.Cluster.Validate.{is_some}
use flowplane.Gateway.Upstream.{InRange}
use flowplane.Gateway.Matchers.{PathMatch}
use flowplane.Gateway.RouteConfig.{
  WeightedClusterTarget, DirectResponseAction, RetryPolicy, RedirectAction, RouteAction,
}
use flowplane.Gateway.RouteConfig.Validate.{
  too_long, validate_direct_response, check_weight, target_total, validate_weighted_clusters,
  check_retriable, validate_retry_policy, one_if, mutations, validate_redirect, is_template,
  terminal_actions, forwards, validate_action,
}
use flowplane.Gateway.MatchRules.{
  is_gap, IsToken, IsToken-iff, IsRoutePath, path_iff, AreRateLimits, rate_limits_iff, AreRewrites,
  rewrites_iff,
}

abbrev pub IsTarget : WeightedClusterTarget → Type 0
IsTarget t = IsName (as_bytes t.cluster) × InRange 1 10_000 t.weight

abbrev pub AreTargets : List WeightedClusterTarget → Type 0
AreTargets weighted =
    ((is_empty weighted ≡ false) × (length weighted ≤ 32))
    & (All IsTarget weighted × Distinct (map (λ t. t.cluster) weighted))
    & (target_total weighted ≤ 10_000)

check_weight_iff :
    (t : WeightedClusterTarget) → (check_weight t ≡ ok tt) ↔ InRange 1 10_000 t.weight
unfolding check_weight
check_weight_iff t = passes _ _ (neither (positive t.weight) (at_most t.weight 10_000))

-- Weighted targets are accepted exactly when there are 1 to 32 of them, each with a valid name that no
-- other one has and a weight from 1 to 10000, and the weights sum to at most 10000.
pub weighted_iff :
    (weighted : List WeightedClusterTarget)
    → (validate_weighted_clusters weighted ≡ ok tt) ↔ AreTargets weighted
unfolding validate_weighted_clusters
weighted_iff weighted =
    both (passes _ _ (neither (is_false (is_empty weighted)) (at_most (length weighted) 32))) (
      both
        (each_fresh (λ t. validate_name t.cluster) (λ t. t.cluster) _ check_weight
          (λ t. validate_name_iff t.cluster) check_weight_iff weighted)
        (passes _ _ (at_most (target_total weighted) 10_000)))

abbrev pub IsDirectResponse : DirectResponseAction → Type 0
IsDirectResponse d = InRange 100 599 d.status × Given d.body (λ body. len body ≤ 4_096)

too_long_iff : (o : Option Text) → (too_long o ≡ false) ↔ Given o (λ body. len body ≤ 4_096)
too_long_iff none = (λ h. tt, λ h. refl)
too_long_iff (some body) = at_most (len body) 4_096

pub at_least : (n min : ℕ) → (ltb n min ≡ false) ↔ (min ≤ n)
at_least n min = ground arith

direct_iff : (d : DirectResponseAction) → (validate_direct_response d ≡ ok tt) ↔ IsDirectResponse d
unfolding validate_direct_response
direct_iff d =
    both (passes _ _ (neither (at_least d.status 100) (at_most d.status 599)))
      (passes _ _ (too_long_iff d.body))

-- A try takes no longer than the route allows.
abbrev pub IsRetry : ℕ → RetryPolicy → Type 0
IsRetry timeout retry =
    IsToken 200 retry.retry_on
    & Given retry.num_retries (λ n. InRange 1 10 n)
    & Given retry.per_try_timeout_secs (λ n. InRange 1 timeout n)
    & All (λ status. InRange 100 599 status) retry.retriable_status_codes

check_retriable_iff : (status : ℕ) → (check_retriable status ≡ ok tt) ↔ InRange 100 599 status
unfolding check_retriable
check_retriable_iff status = ground arith

IsRetry-iff :
    (timeout : ℕ) (retry : RetryPolicy)
    → (validate_retry_policy retry timeout ≡ ok tt) ↔ IsRetry timeout retry
unfolding validate_retry_policy
IsRetry-iff timeout retry =
    both
      (passes _ _ (
        none_of_three (is_false (is_empty retry.retry_on)) (at_most (len retry.retry_on) 200)
          (any_none is_gap retry.retry_on)))
      (both (if_present retry.num_retries (λ n. passes _ _ (neither (positive n) (at_most n 10)))) (
        both
          (if_present retry.per_try_timeout_secs
            (λ n. passes _ _ (neither (positive n) (at_most n timeout))))
          (each retry.retriable_status_codes check_retriable_iff)))

abbrev pub IsScheme : Text → Type 0
IsScheme scheme = (scheme ≡ chars "http") ⊎ (scheme ≡ chars "https")

pub IsScheme-iff :
    (scheme : Text)
    → ((not (scheme == chars "http") && not (scheme == chars "https")) ≡ false) ↔ IsScheme scheme
IsScheme-iff scheme =
    let (f, g) = list_eq_iff ℕ-Eq scheme (chars "http") in
    let (h, i) = list_eq_iff ℕ-Eq scheme (chars "https") in
    let (out, back) = split_or (scheme == chars "http") (scheme == chars "https") in
    (
      λ e. elim (out e) [ inl a ↦ inl (f a) | inr b ↦ inr (h b) ],
      λ s. elim s [ inl a ↦ back (inl (g a)) | inr b ↦ back (inr (i b)) ],
    )

-- It changes something, by one scheme rule and one path rule at most.
abbrev pub IsRedirect : RedirectAction → Type 0
IsRedirect r =
    (1 ≤ mutations r)
    & Given r.host_redirect (λ host. IsToken 128 host)
    & Given r.scheme_redirect IsScheme
    & ((is_some r.scheme_redirect && is_some r.https_redirect) ≡ false)
    & (one_if (is_some r.path_redirect) + one_if (is_some r.prefix_rewrite) ≤ 1)
    & Given r.path_redirect IsRoutePath
    & Given r.prefix_rewrite IsRoutePath

IsRedirect-iff : (r : RedirectAction) → (validate_redirect r ≡ ok tt) ↔ IsRedirect r
unfolding validate_redirect
IsRedirect-iff r = both (passes _ _ (positive (mutations r))) (
    both (if_present r.host_redirect (λ host. IsToken-iff "redirect host" host)) (
      both (if_present r.scheme_redirect (λ scheme. passes _ _ (IsScheme-iff scheme))) (
        both (passes _ _ (is_false (is_some r.scheme_redirect && is_some r.https_redirect))) (
          both
            (passes _ _
              (at_most (one_if (is_some r.path_redirect) + one_if (is_some r.prefix_rewrite)) 1))
            (both (if_present r.path_redirect (λ path. path_iff "redirect path_redirect" path))
              (if_present r.prefix_rewrite (λ path. path_iff "redirect prefix_rewrite" path)))))))

-- Neither rewrites nor retries nor descriptors, which only a forwarded request has.
abbrev pub IsFinal : RouteAction → Type 0
IsFinal action =
    (is_some action.prefix_rewrite ≡ false)
    & (is_some action.template_rewrite ≡ false)
    & (is_some action.retry_policy ≡ false)
    & (not (is_empty action.rate_limits) ≡ false)

IsFinal-iff : (action : RouteAction) → (forwards action ≡ false) ↔ IsFinal action
IsFinal-iff action =
    none_of_four (is_false (is_some action.prefix_rewrite))
      (is_false (is_some action.template_rewrite)) (is_false (is_some action.retry_policy))
      (is_false (not (is_empty action.rate_limits)))

abbrev pub IsAction : RouteAction → PathMatch → Type 0
IsAction action matcher =
    (terminal_actions action ≡ 1)
    & Given action.cluster (λ name. IsName (as_bytes name))
    & Given action.weighted_clusters AreTargets
    & Given action.redirect (λ r. IsRedirect r & IsFinal action)
    & Given action.direct_response (λ d. IsDirectResponse d & IsFinal action)
    & AreRewrites action.prefix_rewrite action.template_rewrite (is_template matcher)
    & InRange 1 300 action.timeout_secs
    & Given action.retry_policy (λ retry. IsRetry action.timeout_secs retry)
    & AreRateLimits action.rate_limits

exactly_one : (n : ℕ) → (not (nat_eq n 1) ≡ false) ↔ (n ≡ 1)
exactly_one n = ground arith

pub IsAction-iff :
    (action : RouteAction) (matcher : PathMatch)
    → (validate_action action matcher ≡ ok tt) ↔ IsAction action matcher
unfolding validate_action
IsAction-iff action matcher = both (passes _ _ (exactly_one (terminal_actions action))) (
    both (if_present action.cluster validate_name_iff) (
      both (if_present action.weighted_clusters weighted_iff) (
        both
          (if_present action.redirect
            (λ r. both (IsRedirect-iff r) (passes _ _ (IsFinal-iff action))))
          (both
            (if_present action.direct_response
              (λ d. both (direct_iff d) (passes _ _ (IsFinal-iff action))))
            (both (rewrites_iff action.prefix_rewrite action.template_rewrite (is_template matcher))
              (both
                (passes _ _
                  (neither (at_least action.timeout_secs 1) (at_most action.timeout_secs 300)))
                (both
                  (if_present action.retry_policy (λ retry. IsRetry-iff action.timeout_secs retry))
                  (rate_limits_iff action.rate_limits))))))))
