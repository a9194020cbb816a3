-- ===== src/Rls/Policy.antt =====
-- The enforced policy set (crates/flowplane-rls/src/policy.rs). The lock around it is left out: a
-- push replaces the whole map in one step. A `HashMap` is an association list.
use flowplane.Base.{
  ℕ, ◌+◌, List, [], ◌∷◌, Option, none, some, Text, Dict, lookup as get, insert, length, List-Eq,
  ℕ-Eq,
}
use flowplane.Base.SortedMap.{SortedMap}
use flowplane.Domain.RateLimit.{RateLimitUnit, descriptors_canonical}

pub record PushedPolicy : Type 0 where
  pub domain : Text
  pub descriptors : SortedMap
  pub requests_per_unit : ℕ
  pub unit : RateLimitUnit

abbrev pub PolicyPush : Type 0
PolicyPush = List PushedPolicy

pub record MatchedPolicy : Type 0 where
  pub requests_per_unit : ℕ
  pub unit : RateLimitUnit

-- domain -> (canonical descriptors -> policy).
abbrev pub PolicyCache : Type 0
PolicyCache = Dict Text (Dict Text MatchedPolicy)

abbrev pub matched : PushedPolicy → MatchedPolicy
matched policy = record { requests_per_unit = policy.requests_per_unit; unit = policy.unit }

-- `entry(domain).or_default()`.
abbrev pub or_default : Option (Dict Text MatchedPolicy) → Dict Text MatchedPolicy
or_default none = []
or_default (some m) = m

-- One round of the loop of `replace`.
unfoldable pub install : PolicyCache → PushedPolicy → PolicyCache
install next policy =
    insert policy.domain
      (insert (descriptors_canonical policy.descriptors) (matched policy)
        (or_default (get policy.domain next)))
      next

unfoldable pub install_all : PolicyCache → PolicyPush → PolicyCache
install_all next [] = next
install_all next (policy ∷ policies) = install_all (install next policy) policies

unfoldable pub replace : PolicyCache → PolicyPush → PolicyCache
replace cache push = install_all [] push

abbrev pub and_then {ℓ κ} : {A : Type ℓ} {B : Type κ} → Option A → (A → Option B) → Option B
and_then none f = none
and_then (some a) f = f a

unfoldable pub lookup : PolicyCache → Text → Text → Option MatchedPolicy
lookup cache domain canonical = and_then (get domain cache) (λ by_desc. get canonical by_desc)

unfoldable pub policy_count : PolicyCache → ℕ
policy_count [] = 0
policy_count ((domain, by_desc) ∷ cache) = length by_desc + policy_count cache
