-- ===== src/Rls/Admission.antt =====
-- What the service admits in a window, and when it says that the window ends.
use flowplane.Base.{
  sym, ℕ, ◌+◌, ◌-◌, ◌%◌, ◌≤◌, ◌<◌, ◌↔◌, ◌≡◌, Bool, true, not, ◌&&◌, List, [], ◌∷◌, none, some, Text,
  if◌then◌else◌, arith, Bool-cases, inl, inr, ap, subst,
}
use flowplane.Base.SortedMap.{text_eq_iff}
use flowplane.Domain.RateLimit.{RateLimitUnit, second, minute, hour, day, window_seconds}
use flowplane.Rls.Policy.{MatchedPolicy}
use flowplane.Rls.Counter.{u64_max, window_id, CounterStore}
use flowplane.Rls.Service.{enforced_status, to_i64, at_least_one}
use flowplane.Rls.Window.{Call, window_of, in_window, tally, IsOrdered, returned, returned-eq-tally}

-- A status is over its limit exactly when the count is.
over_iff :
    (policy : MatchedPolicy) (count now : ℕ)
    → ((enforced_status policy count now).1 ≡ true) ↔ (policy.requests_per_unit < count)
unfolding enforced_status
over_iff policy count now = ground arith

-- A call belongs to its own window.
tally-own :
    (c : Call) (past : List Call)
    → tally c.key (window_of c) (c ∷ past) ≡ c.hits + tally c.key (window_of c) past
unfolding tally
tally-own c past = ground (arith, text_eq_iff c.key c.key)

module _ (counters : CounterStore) (policy : MatchedPolicy) where
  open counters use {Store, slot}

  -- The decision on a call, after a history.
  unfoldable pub is_over : Store → Call → List Call → Bool
  is_over s c past = (enforced_status policy (returned counters s c past) c.now).1

  -- The hits of a window that were answered `ok`.
  unfoldable pub admitted : Store → Text → ℕ → List Call → ℕ
  unfolding is_over
  admitted s key id [] = 0
  admitted s key id (c ∷ past) =
      (if in_window key id c && not (is_over s c past) then c.hits else 0) + admitted s key id past

  -- For a key that starts without a counter, windows that do not run backwards and a limit below
  -- `u64::MAX`, a call is answered `over_limit` exactly when the hits of its window, its own included,
  -- exceed the limit of the policy.
  pub is_over_iff :
      (s : Store) (c : Call) (past : List Call)
      → slot s c.key ≡ none
      → IsOrdered (c ∷ past)
      → policy.requests_per_unit < u64_max
      → (is_over s c past ≡ true)
        ↔ (policy.requests_per_unit < tally c.key (window_of c) (c ∷ past))
  unfolding is_over
  is_over_iff s c past empty o lt =
      let e = returned-eq-tally counters s c past empty o in
      let i = over_iff policy (returned counters s c past) c.now in
      (λ h. omega (arith, e, i.0 h), λ h. i.1 (omega (arith, e)))

  admitted-le-tally :
      (s : Store) (key : Text) (id : ℕ) (past : List Call)
      → admitted s key id past ≤ tally key id past
  unfolding admitted tally
  admitted-le-tally s key id [] = omega arith
  admitted-le-tally s key id (c ∷ past) = ground (arith, admitted-le-tally s key id past)

  -- For a key that starts without a counter, windows that do not run backwards and a limit below
  -- `u64::MAX`, in no window does the service admit more hits for the key than the policy allows.
  pub admitted-le-limit :
      (s : Store) (key : Text) (id : ℕ) (past : List Call)
      → slot s key ≡ none
      → IsOrdered past
      → policy.requests_per_unit < u64_max
      → admitted s key id past ≤ policy.requests_per_unit
  unfolding admitted
  admitted-le-limit s key id [] empty o lt = omega arith
  admitted-le-limit s key id (c ∷ past) empty (o, os) lt =
      elim (Bool-cases (in_window key id c && not (is_over s c past))) [
        | inr skipped ↦ rw skipped (omega (arith, admitted-le-limit s key id past empty os lt))
        | inl counted ↦
            let same : c.key ≡ key = (text_eq_iff c.key key).0 (ground arith) in
            let now : window_of c ≡ id = ground arith in
            let i =
              is_over_iff s c past (subst (λ k. slot s k ≡ none) (sym same) empty) (o, os) lt in
            rw counted (
              ground (
                arith,
                i,
                tally-own c past,
                ap (λ k. tally k (window_of c) past) same,
                ap (λ j. tally key j past) now,
                admitted-le-tally s key id past,
              ))
      ]

abbrev pub NextWindow : RateLimitUnit → ℕ → ℕ → Type 0
NextWindow u now d =
    (window_id (window_seconds u) (now + d) ≡ window_id (window_seconds u) now + 1)
    × ((e : ℕ) → e < d → window_id (window_seconds u) (now + e) ≡ window_id (window_seconds u) now)

next_window :
    (u : RateLimitUnit) (now : ℕ) → NextWindow u now (window_seconds u - now % window_seconds u)
unfolding window_id window_seconds
next_window second now = (omega arith, λ e lt. omega arith)
next_window minute now = (omega arith, λ e lt. omega arith)
next_window hour now = (omega arith, λ e lt. omega arith)
next_window day now = (omega arith, λ e lt. omega arith)

reset_exact :
    (u : RateLimitUnit) (now : ℕ)
    → to_i64 (at_least_one (window_seconds u) - now % at_least_one (window_seconds u))
      ≡ window_seconds u - now % window_seconds u
unfolding window_seconds
reset_exact second now = omega arith
reset_exact minute now = omega arith
reset_exact hour now = omega arith
reset_exact day now = omega arith

-- The announced reset is the first second of the next window: until then the window stays.
pub until_reset-NextWindow :
    (policy : MatchedPolicy) (count now : ℕ)
    → (d : ℕ) × ((enforced_status policy count now).0.duration_until_reset ≡ some d)
      × NextWindow policy.unit now d
unfolding enforced_status
until_reset-NextWindow policy count now = (
  window_seconds policy.unit - now % window_seconds policy.unit,
  ap some (reset_exact policy.unit now),
  next_window policy.unit now,
)
