-- ===== src/Gateway/Cluster.antt =====
-- Clusters, the upstream backends: their data (crates/fp-domain/src/gateway/cluster.rs).
pub mod Validate
use flowplane.Base.{ℕ, Bool, List, [], ◌∷◌, Option, Text, chars, nat_eq}

abbrev pub reserved_name_prefixes : List Text
reserved_name_prefixes =
    chars "envoy-"
    ∷ chars "xds-"
    ∷ chars "internal-"
    ∷ chars "system-"
    ∷ chars "flowplane-"
    ∷ chars "rate_limit_"
    ∷ []

abbrev pub reserved_rate_limit_cluster : Text
reserved_rate_limit_cluster = chars "rate_limit_cluster"

abbrev pub max_endpoints : ℕ
max_endpoints = 100

abbrev pub max_aggregate_clusters : ℕ
max_aggregate_clusters = 32

pub record Endpoint : Type 0 where
  pub host : Text
  pub port : ℕ
  pub weight : Option ℕ

pub data LbPolicy : Type 0 where
  round_robin least_request random ring_hash maglev : LbPolicy

-- The derived equality.
abbrev lb_tag : LbPolicy → ℕ
lb_tag round_robin = 0
lb_tag least_request = 1
lb_tag random = 2
lb_tag ring_hash = 3
lb_tag maglev = 4

abbrev pub lb_eq : LbPolicy → LbPolicy → Bool
lb_eq policy other = nat_eq (lb_tag policy) (lb_tag other)

pub record LeastRequestPolicy : Type 0 where
  pub choice_count : Option ℕ

pub data RingHashFunction : Type 0 where
  xx_hash murmur_hash2 : RingHashFunction

pub record RingHashPolicy : Type 0 where
  pub minimum_ring_size : Option ℕ
  pub maximum_ring_size : Option ℕ
  pub hash_function : Option RingHashFunction

pub record MaglevPolicy : Type 0 where
  pub table_size : Option ℕ

pub data DnsLookupFamily : Type 0 where
  auto v4_only v6_only v4_preferred all : DnsLookupFamily

pub record UpstreamTlsConfig : Type 0 where
  pub sni : Option Text
  pub validation_context_sds_secret_name : Option Text
  pub ca_cert_file : Option Text
  pub auto_sni_san_validation : Bool
  pub insecure_skip_verify : Bool

pub data UpstreamProtocol : Type 0 where
  http1 http2 grpc : UpstreamProtocol

pub data HttpHealthCheckMethod : Type 0 where
  get head post put delete options trace patch : HttpHealthCheckMethod

pub record HttpHealthCheck : Type 0 where
  pub path : Text
  pub host : Option Text
  pub method : Option HttpHealthCheckMethod
  pub expected_statuses : List ℕ
  pub timeout_seconds : ℕ
  pub interval_seconds : ℕ
  pub healthy_threshold : ℕ
  pub unhealthy_threshold : ℕ

pub record TcpHealthCheck : Type 0 where
  pub timeout_seconds : ℕ
  pub interval_seconds : ℕ
  pub healthy_threshold : ℕ
  pub unhealthy_threshold : ℕ

pub data HealthCheck : Type 0 where
  http : HttpHealthCheck → HealthCheck
  tcp : TcpHealthCheck → HealthCheck

pub record CircuitBreakerThresholds : Type 0 where
  pub max_connections : ℕ
  pub max_pending_requests : ℕ
  pub max_requests : ℕ
  pub max_retries : ℕ

pub record CircuitBreakers : Type 0 where
  pub default : Option CircuitBreakerThresholds
  pub high : Option CircuitBreakerThresholds

pub record OutlierDetection : Type 0 where
  pub consecutive_5xx : ℕ
  pub interval_seconds : ℕ
  pub base_ejection_seconds : ℕ
  pub max_ejection_percent : ℕ
  pub min_hosts : Option ℕ

pub record ClusterSpec : Type 0 where
  pub endpoints : List Endpoint
  pub aggregate_clusters : List Text
  pub lb_policy : LbPolicy
  pub least_request : Option LeastRequestPolicy
  pub ring_hash : Option RingHashPolicy
  pub maglev : Option MaglevPolicy
  pub dns_lookup_family : Option DnsLookupFamily
  pub connect_timeout_secs : ℕ
  pub use_tls : Bool
  pub upstream_tls : Option UpstreamTlsConfig
  pub protocol : Option UpstreamProtocol
  pub health_checks : Option (List HealthCheck)
  pub circuit_breakers : Option CircuitBreakers
  pub outlier_detection : Option OutlierDetection
