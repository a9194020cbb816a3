-- ===== src/Rls/Service.antt =====
-- `ShouldRateLimit` (crates/flowplane-rls/src/grpc.rs) over any counter store. The clock is read once
-- for a request, and is an argument.
use flowplane.Base.{
  ℕ, ◌-◌, ◌%◌, min, Bool, false, ◌||◌, List, [], ◌∷◌, ◌++◌, Option, none, some, Text, ltb, nat_eq,
  if◌then◌else◌,
}
use flowplane.Base.SortedMap
use flowplane.Base.SortedMap.{SortedMap}
use flowplane.Domain.RateLimit.{RateLimitUnit, window_seconds, descriptors_canonical}
use flowplane.Rls.Policy.{MatchedPolicy, PolicyCache, lookup}
use flowplane.Rls.Counter.{CounterStore}

-- What a request carries: `key`, `value` entries and an addend, for each descriptor.
pub record Descriptor : Type 0 where
  pub entries : List (Text × Text)
  pub hits_addend : Option ℕ

pub record RateLimitRequest : Type 0 where
  pub domain : Text
  pub descriptors : List Descriptor
  pub hits_addend : ℕ

pub data Code : Type 0 where
  ok over_limit : Code

pub record DescriptorStatus : Type 0 where
  pub code : Code
  pub current_limit : Option (ℕ × RateLimitUnit)
  pub limit_remaining : ℕ
  pub duration_until_reset : Option ℕ

pub record RateLimitResponse : Type 0 where
  pub overall_code : Code
  pub statuses : List DescriptorStatus

-- The record separator joins the namespace and the canonical key.
unfoldable pub counter_key : Text → Text → Text
counter_key domain canonical = domain ++ 0x1e ∷ canonical

abbrev pub ok_status : DescriptorStatus
ok_status = record {
  code = ok;
  current_limit = none;
  limit_remaining = 0;
  duration_until_reset = none;
}

-- `u32::try_from(x).unwrap_or(u32::MAX)`, and the same for `i64`.
abbrev pub to_u32 : ℕ → ℕ
to_u32 x = min x 4294967295

abbrev pub to_i64 : ℕ → ℕ
to_i64 x = min x 9223372036854775807

-- `.max(1)`.
abbrev pub at_least_one : ℕ → ℕ
at_least_one w = if nat_eq w 0 then 1 else w

abbrev pub code_of : Bool → Code
code_of over = if over then over_limit else ok

unfoldable pub enforced_status : MatchedPolicy → ℕ → ℕ → DescriptorStatus × Bool
unfolding window_seconds
enforced_status policy count now =
    let over = ltb policy.requests_per_unit count in
    let window = at_least_one (window_seconds policy.unit) in
    (
      record {
        code = code_of over;
        current_limit = some (to_u32 policy.requests_per_unit, policy.unit);
        limit_remaining = to_u32 (policy.requests_per_unit - count);
        duration_until_reset = some (to_i64 (window - now % window));
      },
      over,
    )

-- The entries as a map, and whether a key came twice.
unfoldable pub collect_entries : SortedMap → Bool → List (Text × Text) → SortedMap × Bool
collect_entries entries duplicate_key [] = (entries, duplicate_key)
collect_entries entries duplicate_key ((k, v) ∷ rest) =
    collect_entries (SortedMap.insert k v entries)
      (duplicate_key || SortedMap.contains_key k entries) rest

-- The addend of the descriptor, else of the request; 0 counts as 1.
abbrev pub effective_hits : Option ℕ → ℕ → ℕ
effective_hits none request_addend = if nat_eq request_addend 0 then 1 else request_addend
effective_hits (some v) request_addend = if nat_eq v 0 then 1 else v

module _ (counters : CounterStore) where
  open counters use {Store, incr}

  -- A matched descriptor: count, and compare.
  unfoldable pub enforce :
      MatchedPolicy → Text → Text → ℕ → ℕ → Store → Store × DescriptorStatus × Bool
  unfolding enforced_status counter_key
  enforce policy domain canonical hits now s =
      let (s', count) =
        incr (counter_key domain canonical) (window_seconds policy.unit) hits now s in
      let (status, over) = enforced_status policy count now in (s', status, over)

  -- The body of the loop over the descriptors.
  unfoldable pub limit_descriptor :
      PolicyCache → Text → ℕ → ℕ → Descriptor → Store → Store × DescriptorStatus × Bool
  unfolding enforce collect_entries
  limit_descriptor policies domain request_addend now d s =
      let (entries, duplicate_key) = collect_entries [] false d.entries in
      if duplicate_key
      then (s, ok_status, false)
      else elim (lookup policies domain (descriptors_canonical entries)) [
        | none ↦ (s, ok_status, false)
        | some policy ↦
            enforce policy domain (descriptors_canonical entries)
              (effective_hits d.hits_addend request_addend) now s
      ]

  unfoldable pub limit_all :
      PolicyCache → Text → ℕ → ℕ → List Descriptor → Store → Store × List DescriptorStatus × Bool
  unfolding limit_descriptor
  limit_all policies domain request_addend now [] s = (s, [], false)
  limit_all policies domain request_addend now (d ∷ ds) s =
      let (s', status, over) = limit_descriptor policies domain request_addend now d s in
      let (s'', statuses, later) = limit_all policies domain request_addend now ds s' in
      (s'', status ∷ statuses, over || later)

  unfoldable pub should_rate_limit :
      PolicyCache → RateLimitRequest → ℕ → Store → Store × RateLimitResponse
  unfolding limit_all
  should_rate_limit policies req now s =
      let (s', statuses, over) =
        limit_all policies req.domain req.hits_addend now req.descriptors s in
      (s', record { overall_code = code_of over; statuses = statuses })
