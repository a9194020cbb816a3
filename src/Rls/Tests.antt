-- ===== src/Rls/Tests.antt =====
-- The theorems of the rate-limit service at concrete requests and histories.
use mathlib.Core.List.{Permᴰ}
use flowplane.Base.{
  ℕ, ◌≡◌, ◌≤◌, min, refl, List, [], ◌∷◌, none, some, Text, chars, is_control, arith, if◌then◌else◌,
  ◌==◌, List-Eq, ℕ-Eq,
}
use flowplane.Domain.Error.{ok}
use flowplane.Domain.RateLimit.{RateLimitPolicySpec, minute, validate, contains}
use flowplane.Rls.Canonical.{validate-canonical_injective}
use flowplane.Rls.Policy.{MatchedPolicy, PushedPolicy, lookup, replace}
use flowplane.Rls.Counter.{u64_max, bump, window_id}
use flowplane.Rls.Memory.{new, slot, incr, slot-incr, slot-new, in_memory}
use flowplane.Rls.Service.{
  Descriptor, RateLimitRequest, counter_key, limit_descriptor, should_rate_limit,
}
use flowplane.Rls.Window.{Call, window_of, tally, IsOrdered, returned, returned-eq-tally}
use flowplane.Rls.Admission.{admitted, admitted-le-limit}
use flowplane.Rls.Replace.{last_match, lookup-replace}
use flowplane.Rls.Order.{limit_descriptor-Perm}
use flowplane.Rls.Isolation.{should_rate_limit-slot}

abbrev per_minute : MatchedPolicy
per_minute = record { requests_per_unit = 2; unit = minute }

abbrev pushed : PushedPolicy
pushed = record {
  domain = (chars "org");
  descriptors = ((chars "path"), (chars "/a")) ∷ [];
  requests_per_unit = 2;
  unit = minute;
}

abbrev call_at : Text → ℕ → Call
call_at key now = record { key = key; window_seconds = 60; hits = 1; now = now }

-- Three calls of one minute for `k`, and one for another key.
abbrev history : List Call
history = call_at (chars "k") 130 ∷ call_at (chars "other") 125 ∷ call_at (chars "k") 121 ∷ []

history-IsOrdered : IsOrdered (call_at (chars "k") 150 ∷ history)
unfolding window_id
history-IsOrdered =
    let same : 2 ≤ 2 = omega arith in
    (
      (λ e. same, (λ e. same, (λ e. same, tt))),
      ((λ e. same, (λ e. same, tt)), ((λ e. same, tt), (tt, tt))),
    )

returned-eq-tally_example :
    returned in_memory new (call_at (chars "k") 150) history
    ≡ min
        (tally
          (chars "k")
          (window_of (call_at (chars "k") 150))
          (call_at (chars "k") 150 ∷ history))
        u64_max
returned-eq-tally_example =
    returned-eq-tally in_memory new (call_at (chars "k") 150) history (slot-new (chars "k"))
      history-IsOrdered

admitted-le-limit_example :
    admitted in_memory per_minute new (chars "k") 2 (call_at (chars "k") 150 ∷ history) ≤ 2
admitted-le-limit_example =
    admitted-le-limit in_memory per_minute new (chars "k") 2 (call_at (chars "k") 150 ∷ history)
      (slot-new (chars "k")) history-IsOrdered (omega arith)

slot-incr_example : slot (incr (chars "k") 60 1 125 new).0 (chars "other") ≡ (
    if (chars "k") == (chars "other")
    then some (bump (slot new (chars "k")) (window_id 60 125) 1)
    else slot new (chars "other"))
slot-incr_example = slot-incr (chars "k") 60 1 125 new (chars "other")

lookup-replace_example :
    lookup (replace [] (pushed ∷ [])) (chars "org") (chars "path")
    ≡ last_match (chars "org") (chars "path") (pushed ∷ []) none
lookup-replace_example = lookup-replace [] (pushed ∷ []) (chars "org") (chars "path")

abbrev forward : Descriptor
forward = record {
  entries = ((chars "a"), (chars "1")) ∷ ((chars "b"), (chars "2")) ∷ [];
  hits_addend = none;
}

abbrev backward : Descriptor
backward = record {
  entries = ((chars "b"), (chars "2")) ∷ ((chars "a"), (chars "1")) ∷ [];
  hits_addend = none;
}

limit_descriptor-Perm_example :
    limit_descriptor in_memory [] (chars "org") 0 125 forward new
    ≡ limit_descriptor in_memory [] (chars "org") 0 125 backward new
limit_descriptor-Perm_example =
    limit_descriptor-Perm in_memory [] (chars "org") 0 125 forward backward new refl
      (Permᴰ.swap refl refl)

abbrev request : RateLimitRequest
request = record { domain = (chars "org"); descriptors = forward ∷ []; hits_addend = 1 }

should_rate_limit-slot_example :
    slot
      (should_rate_limit in_memory (replace [] (pushed ∷ [])) request 125 new).0
      (counter_key (chars "team") (chars "path"))
    ≡ slot new (counter_key (chars "team") (chars "path"))
unfolding contains
should_rate_limit-slot_example =
    should_rate_limit-slot in_memory (replace [] (pushed ∷ [])) request 125 new (chars "team")
      (chars "path") refl refl (λ e. ground (arith, e))

abbrev per_path : RateLimitPolicySpec
per_path = record {
  descriptors = ((chars "path"), (chars "/a")) ∷ [];
  requests_per_unit = 2;
  unit = minute;
}

per_path-valid : validate per_path ≡ ok tt
unfolding validate is_control
per_path-valid = refl

validate-canonical_injective_example : per_path.descriptors ≡ per_path.descriptors
validate-canonical_injective_example =
    validate-canonical_injective per_path per_path per_path-valid per_path-valid refl
