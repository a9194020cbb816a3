-- ===== src/Domain/RateLimit.antt =====
-- Rate-limit policies and the canonical descriptor key (crates/fp-domain/src/rate_limit.rs).
use Prim.Native.String.{String}
use text.Mathlib.Text.{◌==◌ as str_eq}
use flowplane.Base.{
  ℕ, Bool, ◌||◌, List, [], ◌∷◌, ◌++◌, map, any, length, is_empty, ltb, nat_eq, if◌then◌else◌, Text,
  is_control,
}
use flowplane.Base.SortedMap.{SortedMap}
use flowplane.Domain.Error.{DomainResult, ok, err, ◌>>◌, reject_if, validation}

pub data RateLimitUnit : Type 0 where
  second minute hour day : RateLimitUnit

unfoldable pub as_str : RateLimitUnit → String
as_str second = "second"
as_str minute = "minute"
as_str hour = "hour"
as_str day = "day"

unfoldable pub from_str : String → DomainResult RateLimitUnit
from_str raw =
    if str_eq raw "second"
    then ok second
    else if str_eq raw "minute"
    then ok minute
    else if str_eq raw "hour"
    then ok hour
    else if str_eq raw "day"
    then ok day
    else err (validation "\"{raw}\" is not a rate-limit unit (expected second|minute|hour|day)")

-- The length of the fixed window, in seconds.
unfoldable pub window_seconds : RateLimitUnit → ℕ
window_seconds second = 1
window_seconds minute = 60
window_seconds hour = 3_600
window_seconds day = 86_400

abbrev pub max_policy_domain_len : ℕ
max_policy_domain_len = 253

unfoldable pub validate_rate_limit_domain_name : Text → DomainResult (Unit {0})
validate_rate_limit_domain_name name = do
  reject_if (is_empty name) (validation "rate-limit domain must not be empty")
  reject_if (ltb max_policy_domain_len (length name))
      (validation "rate-limit domain must be at most {MAX_POLICY_DOMAIN_LEN} characters")
  reject_if (any is_control name)
      (validation "rate-limit domain must not contain control characters")

pub record RateLimitPolicySpec : Type 0 where
  pub descriptors : SortedMap
  pub requests_per_unit : ℕ
  pub unit : RateLimitUnit

abbrev pub max_descriptor_entries : ℕ
max_descriptor_entries = 16

-- The unit separator, between a key and its value, and the record separator, between pairs.
abbrev pub canonical_kv_sep : ℕ
canonical_kv_sep = 0x1f

abbrev pub canonical_pair_sep : ℕ
canonical_pair_sep = 0x1e

unfoldable pub contains : ℕ → Text → Bool
contains c s = any (λ d. nat_eq d c) s

-- The body of the loop over the descriptors.
unfoldable pub validate_descriptor : Text × Text → DomainResult (Unit {0})
unfolding contains
validate_descriptor (key, value) = do
  reject_if (is_empty key || is_empty value)
      (validation "rate-limit descriptor keys and values must be non-empty")
  reject_if
      (contains canonical_pair_sep key
        || contains canonical_kv_sep key
        || contains canonical_pair_sep value
        || contains canonical_kv_sep value)
      (validation "rate-limit descriptor keys/values must not contain control separators")
  reject_if (any is_control key || any is_control value)
      (validation "rate-limit descriptor keys/values must not contain control characters")

unfoldable pub validate_descriptors : SortedMap → DomainResult (Unit {0})
unfolding validate_descriptor
validate_descriptors [] = ok tt
validate_descriptors (d ∷ ds) = validate_descriptor d >> validate_descriptors ds

unfoldable pub validate : RateLimitPolicySpec → DomainResult (Unit {0})
unfolding validate_descriptors
validate spec = do
  reject_if (nat_eq spec.requests_per_unit 0)
      (validation "rate-limit requests_per_unit must be greater than zero")
  reject_if (is_empty spec.descriptors)
      (validation "rate-limit policy must carry at least one descriptor")
  reject_if (ltb max_descriptor_entries (length spec.descriptors))
      (validation "rate-limit policy must carry at most {MAX_DESCRIPTOR_ENTRIES} descriptors")
  validate_descriptors spec.descriptors

-- `Vec<String>::join`.
unfoldable pub join : Text → List Text → Text
join sep [] = []
join sep (s ∷ []) = s
join sep (s ∷ t ∷ rest) = s ++ (sep ++ join sep (t ∷ rest))

abbrev pub pair_text : Text × Text → Text
pair_text (k, v) = k ++ canonical_kv_sep ∷ v

-- One key=value text for each pair, in the order of the keys.
unfoldable pub descriptors_canonical : SortedMap → Text
unfolding join
descriptors_canonical descriptors = join (canonical_pair_sep ∷ []) (map pair_text descriptors)

unfoldable pub validate_override : ℕ → DomainResult (Unit {0})
validate_override requests_per_unit =
    reject_if (nat_eq requests_per_unit 0)
      (validation "rate-limit override requests_per_unit must be greater than zero")
