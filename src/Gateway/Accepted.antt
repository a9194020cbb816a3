-- ===== src/Gateway/Accepted.antt =====
-- What the validation of a whole cluster accepts: load balancing, TLS, health checks, thresholds.
use flowplane.Base.{
  ℕ, ◌≤◌, ◌<◌, ◌≡◌, ◌↔◌, ◌⊎◌, refl, Bool, true, false, not, chars, is_empty, leb, All, len,
  is_control, is_blank, starts_with, contains_text, any_none, as_bytes, inl, inr, arith,
  if◌then◌else◌,
}
use flowplane.Domain.Error.{DomainResult, ok}
use flowplane.Domain.Checks.{
  split_or, Given, ◌&◌, both, passes, if_present, each, none_of_three, holds, is_false, at_most,
}
use flowplane.Domain.Grammar.{IsName, validate_name_iff}
use flowplane.Gateway.Cluster.{
  LbPolicy, UpstreamTlsConfig, HealthCheck, http, tcp, CircuitBreakerThresholds, CircuitBreakers,
  OutlierDetection, ClusterSpec,
}
use flowplane.Gateway.Cluster.Validate.{
  is_some, flatten, validate_lb, validate_upstream_tls, validate_timing, check_status,
  validate_health_check, validate_circuit_breaker, validate_breakers, validate_outlier,
  validate_cluster,
}
use flowplane.Gateway.Upstream.{
  InRange, range_iff, IsHost, validate_host_iff, IsBalanced, validate_endpoints_iff, IsAggregate,
  validate_aggregate_iff, IsRing, validate_ring_hash_iff, Requires, Requires-iff,
}

abbrev pub IsLb : ClusterSpec → Type 0
IsLb spec =
    Requires spec.least_request spec.lb_policy LbPolicy.least_request
    & Requires spec.ring_hash spec.lb_policy LbPolicy.ring_hash
    & Requires spec.maglev spec.lb_policy LbPolicy.maglev
    & Given spec.least_request (λ policy. Given policy.choice_count (λ n. InRange 2 100 n))
    & Given spec.ring_hash IsRing
    & Given spec.maglev (λ policy. Given policy.table_size (λ n. InRange 1 5_000_011 n))

validate_lb_iff : (spec : ClusterSpec) → (validate_lb spec ≡ ok tt) ↔ IsLb spec
unfolding validate_lb
validate_lb_iff spec =
    both (passes _ _ (Requires-iff spec.least_request spec.lb_policy LbPolicy.least_request)) (
      both (passes _ _ (Requires-iff spec.ring_hash spec.lb_policy LbPolicy.ring_hash)) (
        both (passes _ _ (Requires-iff spec.maglev spec.lb_policy LbPolicy.maglev)) (
          both
            (if_present spec.least_request (λ policy.
              if_present policy.choice_count (λ n. range_iff "least_request.choice_count" n 2 100)))
            (both (if_present spec.ring_hash validate_ring_hash_iff) (
              if_present spec.maglev (λ policy.
                if_present policy.table_size
                  (λ n. range_iff "maglev.table_size" n 1 5_000_011)))))))

-- One source of trust at most, and a path that is not blank and prints.
abbrev pub IsTls : UpstreamTlsConfig → Type 0
IsTls tls =
    Given tls.sni IsHost
    & Given tls.validation_context_sds_secret_name (λ name. IsName (as_bytes name))
    & Given tls.ca_cert_file (λ ca.
      (is_some tls.validation_context_sds_secret_name ≡ false)
      & (is_blank ca ≡ false)
      & All (λ c. is_control c ≡ false) ca)

validate_upstream_tls_iff :
    (tls : UpstreamTlsConfig) → (validate_upstream_tls tls ≡ ok tt) ↔ IsTls tls
unfolding validate_upstream_tls
validate_upstream_tls_iff tls = both (if_present tls.sni validate_host_iff) (
    both (if_present tls.validation_context_sds_secret_name validate_name_iff) (
      if_present tls.ca_cert_file (λ ca.
        both (passes _ _ (is_false (is_some tls.validation_context_sds_secret_name)))
          (both (passes _ _ (is_false (is_blank ca))) (passes _ _ (any_none is_control ca))))))

abbrev pub IsTiming : ℕ → ℕ → ℕ → ℕ → Type 0
IsTiming timeout interval healthy unhealthy =
    InRange 1 60 timeout
    & InRange 1 300 interval
    & (timeout < interval)
    & InRange 1 10 healthy
    & InRange 1 10 unhealthy

shorter : (timeout interval : ℕ) → (leb interval timeout ≡ false) ↔ (timeout < interval)
shorter timeout interval = ground arith

validate_timing_iff :
    (timeout interval healthy unhealthy : ℕ)
    → (validate_timing timeout interval healthy unhealthy ≡ ok tt)
      ↔ IsTiming timeout interval healthy unhealthy
unfolding validate_timing
validate_timing_iff timeout interval healthy unhealthy =
    both (range_iff "{label} timeout_seconds" timeout 1 60) (
      both (range_iff "{label} interval_seconds" interval 1 300) (
        both (passes _ _ (shorter timeout interval)) (
          both (range_iff "{label} healthy_threshold" healthy 1 10)
            (range_iff "{label} unhealthy_threshold" unhealthy 1 10))))

check_status_iff : (status : ℕ) → (check_status status ≡ ok tt) ↔ InRange 100 599 status
unfolding check_status
check_status_iff status = ground arith

abbrev pub IsProbe : HealthCheck → Type 0
IsProbe (http hc) =
    ((starts_with hc.path (chars "/") ≡ true)
      & (contains_text hc.path (chars "..") ≡ false)
      & (len hc.path ≤ 200))
    & Given hc.host IsHost
    & All (λ status. InRange 100 599 status) hc.expected_statuses
    & IsTiming hc.timeout_seconds hc.interval_seconds hc.healthy_threshold hc.unhealthy_threshold
IsProbe (tcp hc) =
    IsTiming hc.timeout_seconds hc.interval_seconds hc.healthy_threshold hc.unhealthy_threshold

validate_health_check_iff : (hc : HealthCheck) → (validate_health_check hc ≡ ok tt) ↔ IsProbe hc
unfolding validate_health_check
validate_health_check_iff (http hc) =
    both
      (passes _ _ (
        none_of_three (holds (starts_with hc.path (chars "/")))
          (is_false (contains_text hc.path (chars ".."))) (at_most (len hc.path) 200)))
      (both (if_present hc.host validate_host_iff) (
        both (each hc.expected_statuses check_status_iff) (
          validate_timing_iff hc.timeout_seconds hc.interval_seconds hc.healthy_threshold
            hc.unhealthy_threshold)))
validate_health_check_iff (tcp hc) =
    validate_timing_iff hc.timeout_seconds hc.interval_seconds hc.healthy_threshold
      hc.unhealthy_threshold

abbrev pub IsBreaker : CircuitBreakerThresholds → Type 0
IsBreaker cb =
    InRange 1 10_000 cb.max_connections
    & InRange 1 10_000 cb.max_pending_requests
    & InRange 1 10_000 cb.max_requests
    & InRange 0 10 cb.max_retries

validate_circuit_breaker_iff :
    (cb : CircuitBreakerThresholds) → (validate_circuit_breaker cb ≡ ok tt) ↔ IsBreaker cb
unfolding validate_circuit_breaker
validate_circuit_breaker_iff cb =
    both (range_iff "{label}.max_connections" cb.max_connections 1 10_000) (
      both (range_iff "{label}.max_pending_requests" cb.max_pending_requests 1 10_000) (
        both (range_iff "{label}.max_requests" cb.max_requests 1 10_000)
          (range_iff "{label}.max_retries" cb.max_retries 0 10)))

abbrev pub IsBreakers : CircuitBreakers → Type 0
IsBreakers cb =
    ((is_some cb.default ≡ true) ⊎ (is_some cb.high ≡ true))
    & Given cb.default IsBreaker
    & Given cb.high IsBreaker

validate_breakers_iff : (cb : CircuitBreakers) → (validate_breakers cb ≡ ok tt) ↔ IsBreakers cb
unfolding validate_breakers
validate_breakers_iff cb = both (passes _ _ (split_or (is_some cb.default) (is_some cb.high))) (
    both (if_present cb.default validate_circuit_breaker_iff)
      (if_present cb.high validate_circuit_breaker_iff))

abbrev pub IsOutlier : OutlierDetection → Type 0
IsOutlier od =
    InRange 1 1_000 od.consecutive_5xx
    & InRange 1 300 od.interval_seconds
    & InRange 1 3_600 od.base_ejection_seconds
    & InRange 1 100 od.max_ejection_percent
    & Given od.min_hosts (λ n. InRange 1 100 n)

validate_outlier_iff : (od : OutlierDetection) → (validate_outlier od ≡ ok tt) ↔ IsOutlier od
unfolding validate_outlier
validate_outlier_iff od = both (range_iff "consecutive_5xx" od.consecutive_5xx 1 1_000) (
    both (range_iff "outlier interval_seconds" od.interval_seconds 1 300) (
      both (range_iff "base_ejection_seconds" od.base_ejection_seconds 1 3_600) (
        both (range_iff "max_ejection_percent" od.max_ejection_percent 1 100)
          (if_present od.min_hosts (λ n. range_iff "min_hosts" n 1 100)))))

abbrev pub IsDirect : ClusterSpec → Type 0
IsDirect spec =
    IsBalanced spec.endpoints
    & InRange 1 300 spec.connect_timeout_secs
    & IsLb spec
    & Given spec.upstream_tls IsTls
    & All IsProbe (flatten spec.health_checks)
    & Given spec.circuit_breakers IsBreakers
    & Given spec.outlier_detection IsOutlier

abbrev pub IsCluster : ClusterSpec → Type 0
IsCluster spec =
    ((is_empty spec.aggregate_clusters ≡ false) × IsAggregate spec)
    ⊎ ((is_empty spec.aggregate_clusters ≡ true) × IsDirect spec)

module _ {ℓ κ} {P : Type ℓ} {Q : Type κ} {m k : DomainResult (Unit {0})} where
  branch :
      (b : Bool)
      → (m ≡ ok tt) ↔ P
      → (k ≡ ok tt) ↔ Q
      → ((if not b then m else k) ≡ ok tt) ↔ (((b ≡ false) × P) ⊎ ((b ≡ true) × Q))
  branch true (f, g) (h, i) =
      (λ e. inr (refl, h e), λ c. elim c [ inl (e, p) ↦ cc | inr (e, q) ↦ i q ])
  branch false (f, g) (h, i) =
      (λ e. inl (refl, f e), λ c. elim c [ inl (e, p) ↦ g p | inr (e, q) ↦ cc ])

-- A cluster is accepted exactly when it is a well-formed aggregate of other clusters, without endpoints
-- of its own, or has no member clusters and is well-formed in each part: 1 to 100 endpoints that all
-- carry a weight or all do not, of total weight at most 10000; options of its own balancing policy
-- only; health checks with a timeout below the interval; thresholds in their ranges.
pub validate_cluster_iff : (spec : ClusterSpec) → (validate_cluster spec ≡ ok tt) ↔ IsCluster spec
unfolding validate_cluster
validate_cluster_iff spec =
    branch (is_empty spec.aggregate_clusters) (validate_aggregate_iff spec) (
      both (validate_endpoints_iff spec.endpoints) (
        both (range_iff "connect_timeout_secs" spec.connect_timeout_secs 1 300) (
          both (validate_lb_iff spec) (
            both (if_present spec.upstream_tls validate_upstream_tls_iff) (
              both (each (flatten spec.health_checks) validate_health_check_iff) (
                both (if_present spec.circuit_breakers validate_breakers_iff)
                  (if_present spec.outlier_detection validate_outlier_iff)))))))
