-- ===== src/Rls/Isolation.antt =====
-- A request answers its own descriptors, and counts in its own namespace only.
use flowplane.Base.{
  ℕ, suc, ◌≡◌, ◌≢◌, refl, sym, ap, ◌∙◌, Bool, true, false, List, [], ◌∷◌, Text, length, any, ◌==◌,
  List-Eq, ℕ-Eq, arith, Bool-cases, Option-cases, inl, inr,
}
use flowplane.Base.SortedMap.{text_eq_iff}
use flowplane.Domain.RateLimit.{descriptors_canonical, window_seconds}
use flowplane.Rls.Canonical.{Without, split_at_sep}
use flowplane.Rls.Policy.{PolicyCache, MatchedPolicy, lookup}
use flowplane.Rls.Counter.{CounterStore}
use flowplane.Rls.Service.{
  Descriptor, DescriptorStatus, RateLimitRequest, Code, ok, over_limit, code_of, enforced_status,
  collect_entries, counter_key, enforce, limit_descriptor, limit_all, should_rate_limit,
}

-- Namespaces without the separator do not share a counter.
counter_key-injective :
    (d e c b : Text) → Without 0x1e d → Without 0x1e e → counter_key d c ≡ counter_key e b → d ≡ e
unfolding counter_key
counter_key-injective d e c b p q h = (split_at_sep 0x1e d e c b p q h).0

abbrev pub is_over_code : Code → Bool
is_over_code ok = false
is_over_code over_limit = true

abbrev pub any_over : List DescriptorStatus → Bool
any_over = any (λ s. is_over_code s.code)

module _ (counters : CounterStore) (policies : PolicyCache) (domain : Text) (addend now : ℕ) where
  open counters use {Store, slot, slot-incr}

  enforce-slot :
      (policy : MatchedPolicy) (canonical : Text) (hits : ℕ) (s : Store) (e c : Text)
      → Without 0x1e domain
      → Without 0x1e e
      → domain ≢ e
      → slot (enforce counters policy domain canonical hits now s).0 (counter_key e c)
        ≡ slot s (counter_key e c)
  unfolding enforce
  enforce-slot policy canonical hits s e c p q ne =
      elim (Bool-cases (counter_key domain canonical == counter_key e c)) [
        | inl same ↦
            absurd (ne (counter_key-injective domain e canonical c p q ((text_eq_iff _ _).0 same)))
        | inr other ↦ rw (
          slot-incr (counter_key domain canonical) (window_seconds policy.unit) hits now s
              (counter_key e c),
          other,
        )
      ]

  limit_descriptor-slot :
      (d : Descriptor) (s : Store) (e c : Text)
      → Without 0x1e domain
      → Without 0x1e e
      → domain ≢ e
      → slot (limit_descriptor counters policies domain addend now d s).0 (counter_key e c)
        ≡ slot s (counter_key e c)
  unfolding limit_descriptor
  limit_descriptor-slot d s e c p q ne = elim (Bool-cases (collect_entries [] false d.entries).1) [
    | inl dup ↦ rw dup
    | inr distinct ↦
        elim (Option-cases
          (lookup policies domain (descriptors_canonical (collect_entries [] false d.entries).0))) [
            | inl missed ↦ rw (distinct, missed)
            | inr (policy, found) ↦ rw (distinct, found) (enforce-slot policy _ _ s e c p q ne)
          ]
  ]

  limit_all-slot :
      (ds : List Descriptor) (s : Store) (e c : Text)
      → Without 0x1e domain
      → Without 0x1e e
      → domain ≢ e
      → slot (limit_all counters policies domain addend now ds s).0 (counter_key e c)
        ≡ slot s (counter_key e c)
  unfolding limit_all
  limit_all-slot [] s e c p q ne = refl
  limit_all-slot (d ∷ ds) s e c p q ne =
      limit_all-slot ds (limit_descriptor counters policies domain addend now d s).0 e c p q ne
      ∙ limit_descriptor-slot d s e c p q ne

  enforce-code :
      (policy : MatchedPolicy) (canonical : Text) (hits : ℕ) (s : Store)
      → is_over_code (enforce counters policy domain canonical hits now s).1.code
        ≡ (enforce counters policy domain canonical hits now s).2
  unfolding enforce enforced_status
  enforce-code policy canonical hits s = ground arith

  limit_descriptor-code :
      (d : Descriptor) (s : Store)
      → is_over_code (limit_descriptor counters policies domain addend now d s).1.code
        ≡ (limit_descriptor counters policies domain addend now d s).2
  unfolding limit_descriptor
  limit_descriptor-code d s = elim (Bool-cases (collect_entries [] false d.entries).1) [
    | inl dup ↦ rw dup
    | inr distinct ↦
        elim (Option-cases
          (lookup policies domain (descriptors_canonical (collect_entries [] false d.entries).0))) [
            | inl missed ↦ rw (distinct, missed)
            | inr (policy, found) ↦ rw (distinct, found) (enforce-code policy _ _ s)
          ]
  ]

  limit_all-code :
      (ds : List Descriptor) (s : Store)
      → any_over (limit_all counters policies domain addend now ds s).1
        ≡ (limit_all counters policies domain addend now ds s).2
  unfolding limit_all
  limit_all-code [] s = refl
  limit_all-code (d ∷ ds) s = ground (
    arith,
    limit_descriptor-code d s,
    limit_all-code ds (limit_descriptor counters policies domain addend now d s).0,
  )

  limit_all-length :
      (ds : List Descriptor) (s : Store)
      → length (limit_all counters policies domain addend now ds s).1 ≡ length ds
  unfolding limit_all
  limit_all-length [] s = refl
  limit_all-length (d ∷ ds) s =
      ap suc (limit_all-length ds (limit_descriptor counters policies domain addend now d s).0)

module _ (counters : CounterStore) (policies : PolicyCache) (req : RateLimitRequest) (now : ℕ) where
  open counters use {Store, slot}

  -- A request leaves every counter of every other namespace as it was. Neither namespace holds the
  -- record separator.
  pub should_rate_limit-slot :
      (s : Store) (e c : Text)
      → Without 0x1e req.domain
      → Without 0x1e e
      → req.domain ≢ e
      → slot (should_rate_limit counters policies req now s).0 (counter_key e c)
        ≡ slot s (counter_key e c)
  unfolding should_rate_limit
  should_rate_limit-slot s e c p q ne =
      limit_all-slot counters policies req.domain req.hits_addend now req.descriptors s e c p q ne

  -- There is one status for each descriptor, and the overall code is `over_limit` exactly when some
  -- status is.
  pub should_rate_limit-overall :
      (s : Store)
      → let r = (should_rate_limit counters policies req now s).1 in
        (length r.statuses ≡ length req.descriptors)
        × (r.overall_code ≡ code_of (any_over r.statuses))
  unfolding should_rate_limit
  should_rate_limit-overall s = (
    limit_all-length counters policies req.domain req.hits_addend now req.descriptors s,
    ap code_of
        (sym (limit_all-code counters policies req.domain req.hits_addend now req.descriptors s)),
  )
