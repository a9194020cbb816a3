-- ===== src/Rls/Canonical.antt =====
-- The canonical descriptor key: unambiguous for validated descriptors, and blind to the order of the
-- entries of a request.
use mathlib.Core.Path.{ap₂}
use flowplane.Base.{
  ℕ, ◌≡◌, ◌≢◌, refl, sym, ap, false, [], ◌∷◌, ◌++◌, append_assoc, Text, All, List-Eq, ℕ-Eq, arith,
}
use flowplane.Base.SortedMap.{SortedMap}
use flowplane.Domain.Error.{ok, >>-eq-ok}
use flowplane.Domain.RateLimit.{
  RateLimitPolicySpec, contains, canonical_kv_sep, canonical_pair_sep, pair_text,
  descriptors_canonical, validate, validate_descriptor, validate_descriptors,
}

-- A text without a character.
abbrev pub Without : ℕ → Text → Type 0
Without c s = contains c s ≡ false

-- A separator that neither part holds splits a text in one way.
pub split_at_sep :
    (c : ℕ) (s t x y : Text)
    → Without c s
    → Without c t
    → s ++ c ∷ x ≡ t ++ c ∷ y
    → (s ≡ t) × (x ≡ y)
unfolding contains
split_at_sep c [] [] x y p q h = ground arith
split_at_sep c [] (d ∷ t) x y p q h = ground arith
split_at_sep c (d ∷ s) [] x y p q h = ground arith
split_at_sep c (d ∷ s) (e ∷ t) x y p q h = ground (arith, split_at_sep c s t x y)

sep-absent : (c : ℕ) (s t x : Text) → Without c s → s ≢ t ++ c ∷ x
unfolding contains
sep-absent c [] [] x p h = cc
sep-absent c [] (e ∷ t) x p h = cc
sep-absent c (d ∷ s) [] x p h = ground arith
sep-absent c (d ∷ s) (e ∷ t) x p h = ground (arith, sep-absent c s t x)

-- What validation makes of a descriptor: neither side holds a separator.
abbrev pub IsClean : Text × Text → Type 0
IsClean (k, v) =
    Without canonical_kv_sep k × Without canonical_pair_sep k × Without canonical_pair_sep v

Without-append : (c : ℕ) (s t : Text) → Without c s → Without c t → Without c (s ++ t)
unfolding contains
Without-append c [] t p q = q
Without-append c (d ∷ s) t p q = ground (arith, Without-append c s t)

pair_text-Without : (k v : Text) → IsClean (k, v) → Without canonical_pair_sep (pair_text (k, v))
unfolding contains
pair_text-Without k v (a, b, c) =
    Without-append canonical_pair_sep k (canonical_kv_sep ∷ v) b (ground arith)

append-ne-nil : (s : Text) (c : ℕ) (x : Text) → s ++ c ∷ x ≢ []
append-ne-nil [] c x h = cc
append-ne-nil (d ∷ s) c x h = cc

pair_text-injective :
    (k v j w : Text)
    → Without canonical_kv_sep k
    → Without canonical_kv_sep j
    → pair_text (k, v) ≡ pair_text (j, w)
    → ◌≡◌ {A = Text × Text} (k, v) (j, w)
pair_text-injective k v j w p q h = let (e, f) = split_at_sep canonical_kv_sep k j v w p q h in cc

-- Two descriptor maps whose keys and values hold no separator have the same canonical key only if
-- they are the same map.
pub descriptors_canonical-injective :
    (ss ts : SortedMap)
    → All IsClean ss
    → All IsClean ts
    → descriptors_canonical ss ≡ descriptors_canonical ts
    → ss ≡ ts
unfolding descriptors_canonical
descriptors_canonical-injective [] [] p q h = refl
descriptors_canonical-injective [] ((k, v) ∷ []) p q h =
    absurd (append-ne-nil k canonical_kv_sep v (sym h))
descriptors_canonical-injective [] ((k, v) ∷ t ∷ ts) p q h =
    absurd (append-ne-nil (pair_text (k, v)) canonical_pair_sep _ (sym h))
descriptors_canonical-injective ((k, v) ∷ []) [] p q h =
    absurd (append-ne-nil k canonical_kv_sep v h)
descriptors_canonical-injective ((k, v) ∷ s ∷ ss) [] p q h =
    absurd (append-ne-nil (pair_text (k, v)) canonical_pair_sep _ h)
descriptors_canonical-injective ((k, v) ∷ []) ((j, w) ∷ []) (p, _) (q, _) h =
    ap (λ x. x ∷ []) (pair_text-injective k v j w p.0 q.0 h)
descriptors_canonical-injective ((k, v) ∷ []) ((j, w) ∷ t ∷ ts) (p, _) q h = absurd (
    sep-absent canonical_pair_sep (pair_text (k, v)) (pair_text (j, w)) _ (pair_text-Without k v p)
      h)
descriptors_canonical-injective ((k, v) ∷ s ∷ ss) ((j, w) ∷ []) p (q, _) h = absurd (
    sep-absent canonical_pair_sep (pair_text (j, w)) (pair_text (k, v)) _ (pair_text-Without j w q)
      (sym h))
descriptors_canonical-injective ((k, v) ∷ s ∷ ss) ((j, w) ∷ t ∷ ts) (p, ps) (q, qs) h =
    let (e, f) =
      split_at_sep canonical_pair_sep (pair_text (k, v)) (pair_text (j, w)) _ _
        (pair_text-Without k v p) (pair_text-Without j w q) h in
    ap₂ (λ x xs. x ∷ xs) (pair_text-injective k v j w p.0 q.0 e)
      (descriptors_canonical-injective (s ∷ ss) (t ∷ ts) ps qs f)

validate_descriptor-IsClean : (d : Text × Text) → validate_descriptor d ≡ ok tt → IsClean d
unfolding validate_descriptor
validate_descriptor-IsClean (k, v) h = ground arith

validate_descriptors-IsClean : (ds : SortedMap) → validate_descriptors ds ≡ ok tt → All IsClean ds
unfolding validate_descriptors
validate_descriptors-IsClean [] h = tt
validate_descriptors-IsClean (d ∷ ds) h =
    let (here, later) = >>-eq-ok _ _ h in
    (validate_descriptor-IsClean d here, validate_descriptors-IsClean ds later)

validate-IsClean : (s : RateLimitPolicySpec) → validate s ≡ ok tt → All IsClean s.descriptors
unfolding validate
validate-IsClean s h = validate_descriptors-IsClean s.descriptors (ground arith)

-- Two valid policies with the same canonical key have the same descriptors: the stored key stands
-- for the descriptor set.
pub validate-canonical_injective :
    (s t : RateLimitPolicySpec)
    → validate s ≡ ok tt
    → validate t ≡ ok tt
    → descriptors_canonical s.descriptors ≡ descriptors_canonical t.descriptors
    → s.descriptors ≡ t.descriptors
validate-canonical_injective s t p q h =
    descriptors_canonical-injective s.descriptors t.descriptors (validate-IsClean s p)
      (validate-IsClean t q) h

-- One entry whose value holds the separators has the canonical key of two entries.
pub descriptors_canonical-ambiguous :
    (k v j w : Text)
    → descriptors_canonical ((k, v ++ canonical_pair_sep ∷ j ++ canonical_kv_sep ∷ w) ∷ [])
      ≡ descriptors_canonical ((k, v) ∷ (j, w) ∷ [])
unfolding descriptors_canonical
descriptors_canonical-ambiguous k v j w = simp append_assoc
