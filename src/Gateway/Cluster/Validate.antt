-- ===== src/Gateway/Cluster/Validate.antt =====
-- The validation of clusters (crates/fp-domain/src/gateway/cluster.rs).
use Prim.Native.String.{String}
use flowplane.Base.{
  ℕ, ◌+◌, Bool, true, false, not, ◌&&◌, ◌||◌, List, [], ◌∷◌, Option, none, some, Text, chars,
  length, all as all_of, any, retain, is_empty, leb, ltb, nat_eq, if◌then◌else◌, is_control,
  is_blank, is_ascii_alphanumeric, len, starts_with, contains_text,
}
use flowplane.Domain.Error.{DomainResult, ok, validation, with_hint, reject_if, ◌>>◌}
use flowplane.Domain.Checks.{if_some, for_each}
use flowplane.Domain.Name.{validate_name}
use flowplane.Gateway.Cluster.{
  reserved_name_prefixes, max_endpoints, max_aggregate_clusters, Endpoint, LbPolicy, lb_eq,
  RingHashPolicy, UpstreamTlsConfig, HealthCheck, http, tcp, CircuitBreakerThresholds,
  CircuitBreakers, OutlierDetection, ClusterSpec,
}

-- `range` and `range_u64`.
unfoldable pub range : String → ℕ → ℕ → ℕ → DomainResult (Unit {0})
range label value min max =
    reject_if (ltb value min || ltb max value)
      (validation "{label} must be between {min} and {max}, got {value}")

-- The loop over the reserved prefixes.
unfoldable pub check_prefix : Text → Text → DomainResult (Unit {0})
check_prefix name prefix =
    reject_if (starts_with name prefix)
      (validation "the \"{prefix}\" name prefix is reserved for internal resources")

unfoldable pub validate_cluster_name : Text → DomainResult (Unit {0})
unfolding check_prefix
validate_cluster_name name = do
  validate_name name
  for_each (check_prefix name) reserved_name_prefixes

abbrev pub is_host_char : ℕ → Bool
is_host_char c = is_ascii_alphanumeric c || nat_eq c 46 || nat_eq c 45

unfoldable pub validate_host : Text → DomainResult (Unit {0})
validate_host host =
    reject_if
      (is_empty host
        || ltb 253 (len host)
        || not (all_of is_host_char host)
        || contains_text host (chars ".."))
      (validation "\"{}\" is not a valid endpoint host")

abbrev pub is_some {ℓ} : {A : Type ℓ} → Option A → Bool
is_some none = false
is_some (some a) = true

abbrev pub is_none {ℓ} : {A : Type ℓ} → Option A → Bool
is_none o = not (is_some o)

-- `iter().flatten()` of an optional list.
abbrev pub flatten {ℓ} : {A : Type ℓ} → Option (List A) → List A
flatten none = []
flatten (some list) = list

-- How many endpoints carry a weight.
abbrev pub weighted : List Endpoint → ℕ
weighted endpoints = length (retain (λ e. is_some e.weight) endpoints)

-- The body of the loop over the endpoints, and the sum that the loop keeps.
unfoldable pub validate_endpoint : Endpoint → DomainResult (Unit {0})
unfolding validate_host range
validate_endpoint endpoint = do
  validate_host endpoint.host
  reject_if (nat_eq endpoint.port 0) (validation "endpoint port must be 1-65535")
  if_some endpoint.weight (λ weight. range "endpoint weight" weight 1 1_000)

abbrev pub weight_or_zero : Option ℕ → ℕ
weight_or_zero none = 0
weight_or_zero (some weight) = weight

abbrev pub total_weight : List Endpoint → ℕ
total_weight [] = 0
total_weight (e ∷ endpoints) = weight_or_zero e.weight + total_weight endpoints

unfoldable pub validate_aggregate : ClusterSpec → DomainResult (Unit {0})
unfolding range
validate_aggregate spec = do
  reject_if (not (is_empty spec.endpoints))
      (validation "aggregate clusters must not define endpoints")
  reject_if (ltb max_aggregate_clusters (length spec.aggregate_clusters))
      (validation "at most {MAX_AGGREGATE_CLUSTERS} aggregate member clusters, got {}")
  for_each validate_name spec.aggregate_clusters
  range "connect_timeout_secs" spec.connect_timeout_secs 1 300

unfoldable pub validate_endpoints : List Endpoint → DomainResult (Unit {0})
unfolding validate_endpoint
validate_endpoints endpoints = do
  reject_if (is_empty endpoints) (
      with_hint (validation "a cluster needs at least one endpoint")
        "add endpoints: [{host, port}]")
  reject_if (ltb max_endpoints (length endpoints))
      (validation "at most {MAX_ENDPOINTS} endpoints per cluster, got {}")
  reject_if
      (not (nat_eq (weighted endpoints) 0) && not (nat_eq (weighted endpoints) (length endpoints)))
      (validation "either all endpoints carry a weight or none do")
  for_each validate_endpoint endpoints
  reject_if (ltb 10_000 (total_weight endpoints))
      (validation "total endpoint weight must be <= 10000")

unfoldable pub check_ring_order : Option ℕ → Option ℕ → DomainResult (Unit {0})
check_ring_order (some min) (some max) =
    reject_if (ltb max min) (validation "ring_hash.minimum_ring_size must be <= maximum_ring_size")
check_ring_order _ _ = ok tt

unfoldable pub validate_ring_hash : RingHashPolicy → DomainResult (Unit {0})
unfolding range check_ring_order
validate_ring_hash policy = do
  if_some policy.minimum_ring_size (λ min. range "ring_hash.minimum_ring_size" min 1 8_388_608)
  if_some policy.maximum_ring_size (λ max. range "ring_hash.maximum_ring_size" max 1 8_388_608)
  check_ring_order policy.minimum_ring_size policy.maximum_ring_size

-- The load-balancing policy and its options.
unfoldable pub validate_lb : ClusterSpec → DomainResult (Unit {0})
unfolding range validate_ring_hash
validate_lb spec = do
  reject_if (not (lb_eq spec.lb_policy LbPolicy.least_request) && is_some spec.least_request)
      (validation "least_request options require lb_policy = least-request")
  reject_if (not (lb_eq spec.lb_policy LbPolicy.ring_hash) && is_some spec.ring_hash)
      (validation "ring_hash options require lb_policy = ring-hash")
  reject_if (not (lb_eq spec.lb_policy LbPolicy.maglev) && is_some spec.maglev)
      (validation "maglev options require lb_policy = maglev")
  if_some spec.least_request (λ policy.
      if_some policy.choice_count (λ count. range "least_request.choice_count" count 2 100))
  if_some spec.ring_hash validate_ring_hash
  if_some spec.maglev
      (λ policy. if_some policy.table_size (λ size. range "maglev.table_size" size 1 5_000_011))

unfoldable pub validate_upstream_tls : UpstreamTlsConfig → DomainResult (Unit {0})
unfolding validate_host
validate_upstream_tls tls = do
  if_some tls.sni validate_host
  if_some tls.validation_context_sds_secret_name validate_name
  if_some tls.ca_cert_file (λ ca. do
    reject_if (is_some tls.validation_context_sds_secret_name) (
        validation
          "upstream_tls validation source must be either ca_cert_file or validation_context_sds_secret_name, not both")
    reject_if (is_blank ca) (validation "upstream_tls ca_cert_file must not be empty")
    reject_if (any is_control ca)
        (validation "upstream_tls ca_cert_file must not contain control characters"))

-- The checks that the two kinds of health check share.
unfoldable pub validate_timing : ℕ → ℕ → ℕ → ℕ → DomainResult (Unit {0})
unfolding range
validate_timing timeout interval healthy unhealthy = do
  range "{label} timeout_seconds" timeout 1 60
  range "{label} interval_seconds" interval 1 300
  reject_if (leb interval timeout)
      (validation "{label} timeout must be strictly less than its interval")
  range "{label} healthy_threshold" healthy 1 10
  range "{label} unhealthy_threshold" unhealthy 1 10

unfoldable pub check_status : ℕ → DomainResult (Unit {0})
check_status status =
    reject_if (not (leb 100 status && ltb status 600))
      (validation "health-check expected_statuses must be HTTP status codes 100-599")

unfoldable pub validate_health_check : HealthCheck → DomainResult (Unit {0})
unfolding validate_timing validate_host check_status
validate_health_check (http hc) = do
  reject_if
      (not (starts_with hc.path (chars "/"))
        || contains_text hc.path (chars "..")
        || ltb 200 (len hc.path))
      (validation "health-check path must start with '/', contain no '..', and be <= 200 chars")
  if_some hc.host validate_host
  for_each check_status hc.expected_statuses
  validate_timing hc.timeout_seconds hc.interval_seconds hc.healthy_threshold hc.unhealthy_threshold
validate_health_check (tcp hc) =
    validate_timing hc.timeout_seconds hc.interval_seconds hc.healthy_threshold
      hc.unhealthy_threshold

unfoldable pub validate_circuit_breaker : CircuitBreakerThresholds → DomainResult (Unit {0})
unfolding range
validate_circuit_breaker cb = do
  range "{label}.max_connections" cb.max_connections 1 10_000
  range "{label}.max_pending_requests" cb.max_pending_requests 1 10_000
  range "{label}.max_requests" cb.max_requests 1 10_000
  range "{label}.max_retries" cb.max_retries 0 10

unfoldable pub validate_breakers : CircuitBreakers → DomainResult (Unit {0})
unfolding validate_circuit_breaker
validate_breakers cb = do
  reject_if (is_none cb.default && is_none cb.high)
      (validation "circuit_breakers must set default or high thresholds")
  if_some cb.default validate_circuit_breaker
  if_some cb.high validate_circuit_breaker

unfoldable pub validate_outlier : OutlierDetection → DomainResult (Unit {0})
unfolding range
validate_outlier od = do
  range "consecutive_5xx" od.consecutive_5xx 1 1_000
  range "outlier interval_seconds" od.interval_seconds 1 300
  range "base_ejection_seconds" od.base_ejection_seconds 1 3_600
  range "max_ejection_percent" od.max_ejection_percent 1 100
  if_some od.min_hosts (λ min_hosts. range "min_hosts" min_hosts 1 100)

unfoldable pub validate_cluster : ClusterSpec → DomainResult (Unit {0})
unfolding range validate_aggregate validate_endpoints validate_lb validate_upstream_tls
    validate_health_check validate_breakers validate_outlier
validate_cluster spec =
    if not (is_empty spec.aggregate_clusters) then validate_aggregate spec else do
      validate_endpoints spec.endpoints
      range "connect_timeout_secs" spec.connect_timeout_secs 1 300
      validate_lb spec
      if_some spec.upstream_tls validate_upstream_tls
      for_each validate_health_check (flatten spec.health_checks)
      if_some spec.circuit_breakers validate_breakers
      if_some spec.outlier_detection validate_outlier
