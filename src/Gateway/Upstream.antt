-- ===== src/Gateway/Upstream.antt =====
-- What the validation of a cluster accepts, as a description of the specification.
use Prim.Native.String.{String}
use flowplane.Base.{
  ℕ, ◌≤◌, ◌≡◌, ◌↔◌, ◌⊎◌, refl, true, false, not, ◌&&◌, List, [], ◌∷◌, Option, none, some, Text,
  chars, length, is_empty, nat_eq, All, len, contains_text, inl, inr, arith, as_bytes, Bool-cases,
}
use flowplane.Domain.Error.{ok}
use flowplane.Domain.Checks.{
  Given, ◌&◌, both, passes, if_present, each, every_iff, none_of_four, is_false, at_most, positive,
}
use flowplane.Domain.Grammar.{IsName, validate_name_iff}
use flowplane.Gateway.Cluster.{
  Endpoint, LbPolicy, RingHashPolicy, ClusterSpec, max_endpoints, max_aggregate_clusters, lb_eq,
}
use flowplane.Gateway.Cluster.Validate.{
  range, is_host_char, validate_host, is_some, weighted, validate_endpoint, total_weight,
  validate_aggregate, validate_endpoints, check_ring_order, validate_ring_hash,
}

abbrev pub InRange : ℕ → ℕ → ℕ → Type 0
InRange min max value = (min ≤ value) × (value ≤ max)

pub range_iff :
    (label : String) (value min max : ℕ)
    → (range label value min max ≡ ok tt) ↔ InRange min max value
unfolding range
range_iff label value min max = passes _ _ (ground arith)

abbrev pub IsHost : Text → Type 0
IsHost host =
    (is_empty host ≡ false)
    & (len host ≤ 253)
    & All (λ c. is_host_char c ≡ true) host
    & (contains_text host (chars "..") ≡ false)

pub validate_host_iff : (host : Text) → (validate_host host ≡ ok tt) ↔ IsHost host
unfolding validate_host
validate_host_iff host = passes _ _ (
    none_of_four (is_false (is_empty host)) (at_most (len host) 253) (every_iff is_host_char host)
      (is_false (contains_text host (chars ".."))))

abbrev pub IsEndpoint : Endpoint → Type 0
IsEndpoint e = IsHost e.host & (1 ≤ e.port) & Given e.weight (λ w. InRange 1 1_000 w)

validate_endpoint_iff : (e : Endpoint) → (validate_endpoint e ≡ ok tt) ↔ IsEndpoint e
unfolding validate_endpoint
validate_endpoint_iff e = both (validate_host_iff e.host) (
    both (passes _ _ (positive e.port))
      (if_present e.weight (λ w. range_iff "endpoint weight" w 1 1_000)))

-- Every endpoint carries a weight, or none does.
abbrev pub IsUniform : List Endpoint → Type 0
IsUniform endpoints =
    All (λ e. is_some e.weight ≡ true) endpoints ⊎ All (λ e. is_some e.weight ≡ false) endpoints

weighted_bound : (es : List Endpoint) → weighted es ≤ length es
weighted_bound [] = ground arith
weighted_bound (e ∷ es) = ground (arith, weighted_bound es)

weighted-All :
    (es : List Endpoint) → (weighted es ≡ length es) ↔ All (λ e. is_some e.weight ≡ true) es
weighted-All [] = (λ h. tt, λ h. refl)
weighted-All (e ∷ es) =
    let (f, g) = weighted-All es in
    let bound = weighted_bound es in
    (λ h. (ground arith, f (ground arith)), λ (h, hs). let rest = g hs in ground arith)

weighted-none : (es : List Endpoint) → (weighted es ≡ 0) ↔ All (λ e. is_some e.weight ≡ false) es
weighted-none [] = (λ h. tt, λ h. refl)
weighted-none (e ∷ es) =
    let (f, g) = weighted-none es in
    (λ h. (ground arith, f (ground arith)), λ (h, hs). let rest = g hs in ground arith)

count_cases :
    (es : List Endpoint)
    → (not (nat_eq (weighted es) 0) && not (nat_eq (weighted es) (length es))) ≡ false
    → (weighted es ≡ 0) ⊎ (weighted es ≡ length es)
count_cases es h = elim (Bool-cases (nat_eq (weighted es) 0)) [
  | inl e ↦ inl (ground arith)
  | inr e ↦ inr (ground arith)
]

IsUniform-iff :
    (es : List Endpoint)
    → ((not (nat_eq (weighted es) 0) && not (nat_eq (weighted es) (length es))) ≡ false)
      ↔ IsUniform es
IsUniform-iff es =
    let (f, g) = weighted-All es in
    let (h, i) = weighted-none es in
    (
      λ e. elim (count_cases es e) [
        | inl none_has ↦ inr (h none_has)
        | inr all_have ↦ inl (f all_have)
      ],
      λ u. elim u [
        | inl all_have ↦ let n = g all_have in ground arith
        | inr none_has ↦ let n = i none_has in ground arith
      ],
    )

abbrev pub IsBalanced : List Endpoint → Type 0
IsBalanced es =
    (is_empty es ≡ false)
    & (length es ≤ max_endpoints)
    & IsUniform es
    & All IsEndpoint es
    & (total_weight es ≤ 10_000)

pub validate_endpoints_iff : (es : List Endpoint) → (validate_endpoints es ≡ ok tt) ↔ IsBalanced es
unfolding validate_endpoints
validate_endpoints_iff es = both (passes _ _ (is_false (is_empty es))) (
    both (passes _ _ (at_most (length es) max_endpoints)) (
      both (passes _ _ (IsUniform-iff es))
        (both (each es validate_endpoint_iff) (passes _ _ (at_most (total_weight es) 10_000)))))

abbrev pub IsAggregate : ClusterSpec → Type 0
IsAggregate spec =
    (not (is_empty spec.endpoints) ≡ false)
    & (length spec.aggregate_clusters ≤ max_aggregate_clusters)
    & All (λ name. IsName (as_bytes name)) spec.aggregate_clusters
    & InRange 1 300 spec.connect_timeout_secs

pub validate_aggregate_iff :
    (spec : ClusterSpec) → (validate_aggregate spec ≡ ok tt) ↔ IsAggregate spec
unfolding validate_aggregate
validate_aggregate_iff spec = both (passes _ _ (is_false (not (is_empty spec.endpoints)))) (
    both (passes _ _ (at_most (length spec.aggregate_clusters) max_aggregate_clusters)) (
      both (each spec.aggregate_clusters validate_name_iff)
        (range_iff "connect_timeout_secs" spec.connect_timeout_secs 1 300)))

-- The smallest ring is no larger than the largest one, when both are given.
abbrev pub IsOrdered : Option ℕ → Option ℕ → Type 0
IsOrdered minimum maximum = Given minimum (λ min. Given maximum (λ max. min ≤ max))

check_ring_order_iff :
    (minimum maximum : Option ℕ)
    → (check_ring_order minimum maximum ≡ ok tt) ↔ IsOrdered minimum maximum
unfolding check_ring_order
check_ring_order_iff none maximum = (λ h. tt, λ h. refl)
check_ring_order_iff (some min) none = (λ h. tt, λ h. refl)
check_ring_order_iff (some min) (some max) = passes _ _ (ground arith)

abbrev pub IsRing : RingHashPolicy → Type 0
IsRing policy =
    Given policy.minimum_ring_size (λ min. InRange 1 8_388_608 min)
    & Given policy.maximum_ring_size (λ max. InRange 1 8_388_608 max)
    & IsOrdered policy.minimum_ring_size policy.maximum_ring_size

pub validate_ring_hash_iff :
    (policy : RingHashPolicy) → (validate_ring_hash policy ≡ ok tt) ↔ IsRing policy
unfolding validate_ring_hash
validate_ring_hash_iff policy =
    both
      (if_present policy.minimum_ring_size
        (λ n. range_iff "ring_hash.minimum_ring_size" n 1 8_388_608))
      (both
        (if_present policy.maximum_ring_size
          (λ n. range_iff "ring_hash.maximum_ring_size" n 1 8_388_608))
        (check_ring_order_iff policy.minimum_ring_size policy.maximum_ring_size))

-- Options come with their own policy only.
abbrev pub Requires {ℓ} : {A : Type ℓ} → Option A → LbPolicy → LbPolicy → Type 0
Requires options policy needed = (is_some options ≡ true) → policy ≡ needed

lb_eq_iff : (policy needed : LbPolicy) → (lb_eq policy needed ≡ true) ↔ (policy ≡ needed)
lb_eq_iff policy needed = ground arith

pub Requires-iff {ℓ} :
    {A : Type ℓ} (options : Option A) (policy needed : LbPolicy)
    → ((not (lb_eq policy needed) && is_some options) ≡ false) ↔ Requires options policy needed
Requires-iff options policy needed = (
  λ h k. (lb_eq_iff policy needed).0 (ground arith),
  λ h. elim (Bool-cases (is_some options)) [
    | inl given ↦ ground (arith, lb_eq_iff policy needed, h given)
    | inr missing ↦ ground arith
  ],
)
