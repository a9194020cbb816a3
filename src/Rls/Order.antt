-- ===== src/Rls/Order.antt =====
-- The order of a descriptor's entries does not matter.
use mathlib.Core.List.{Permᴰ}
use mathlib.Core.Path.{ap₂}
use flowplane.Base.{
  ◌≡◌, refl, sym, ◌∙◌, Bool, true, false, ◌||◌, List, [], ◌∷◌, Option, none, some, Text, ◌==◌,
  List-Eq, ℕ-Eq, if◌then◌else◌, arith, Bool-cases, inl, inr, ℕ,
}
use flowplane.Base.SortedMap
use flowplane.Base.SortedMap.{SortedMap, text_eq_iff, insert_comm, text_lt, text_lt_total}
use flowplane.Domain.RateLimit.{descriptors_canonical}
use flowplane.Rls.Policy.{PolicyCache, lookup}
use flowplane.Rls.Counter.{CounterStore}
use flowplane.Rls.Service.{
  Descriptor, DescriptorStatus, ok_status, effective_hits, enforce, collect_entries,
  limit_descriptor,
}

contains_key-insert :
    (k j v : Text) (m : SortedMap)
    → SortedMap.contains_key j (SortedMap.insert k v m) ≡ (k == j || SortedMap.contains_key j m)
unfolding SortedMap.contains_key SortedMap.insert
contains_key-insert k j v [] = refl
contains_key-insert k j v ((i, x) ∷ m) =
    ground (arith, contains_key-insert k j v m, text_eq_iff k i, text_eq_iff i j, text_eq_iff k j)

-- The map of entries without a duplicate.
abbrev distinct : SortedMap × Bool → Option SortedMap
distinct (m, duplicate) = if duplicate then none else some m

collect_duplicate :
    (m : SortedMap) (es : List (Text × Text)) → distinct (collect_entries m true es) ≡ none
unfolding collect_entries
collect_duplicate m [] = refl
collect_duplicate m ((k, v) ∷ es) = collect_duplicate (SortedMap.insert k v m) es

both_duplicate :
    (m n : SortedMap) (b c : Bool) (es : List (Text × Text))
    → b ≡ true
    → c ≡ true
    → distinct (collect_entries m b es) ≡ distinct (collect_entries n c es)
both_duplicate m n b c es p q = rw (p, q) (collect_duplicate m es ∙ sym (collect_duplicate n es))

swap_entries :
    (k v j w : Text) (es : List (Text × Text)) (m : SortedMap) (dup : Bool)
    → distinct (collect_entries m dup ((k, v) ∷ (j, w) ∷ es))
      ≡ distinct (collect_entries m dup ((j, w) ∷ (k, v) ∷ es))
unfolding collect_entries
swap_entries k v j w es m dup = elim (Bool-cases (k == j)) [
  | inl same ↦
      both_duplicate _ _ _ _ es
        (ground (arith, contains_key-insert k j v m, text_eq_iff k j, text_eq_iff j k))
        (ground (arith, contains_key-insert j k w m, text_eq_iff k j, text_eq_iff j k))
  | inr other ↦
      ap₂ (λ n b. distinct (collect_entries n b es))
        (insert_comm j k w v m (λ e. ground (arith, text_eq_iff k j)))
        (ground (
          arith,
          contains_key-insert k j v m,
          contains_key-insert j k w m,
          text_eq_iff k j,
          text_eq_iff j k,
        ))
]

distinct_Perm :
    {es fs : List (Text × Text)}
    → Permᴰ es fs
    → (m : SortedMap) (dup : Bool)
    → distinct (collect_entries m dup es) ≡ distinct (collect_entries m dup fs)
unfolding collect_entries
distinct_Perm Permᴰ.nil m dup = refl
distinct_Perm (Permᴰ.cons {a = (k, v)} {b = (j, w)} {l₁} {l₂} e p) m dup =
    rw e (distinct_Perm p (SortedMap.insert j w m) (dup || SortedMap.contains_key j m))
distinct_Perm (Permᴰ.swap {a = (k, v)} {b = (j, w)} {l} e f) m dup =
    rw (← e, ← f) (swap_entries k v j w l m dup)
distinct_Perm (Permᴰ.trans p q) m dup = distinct_Perm p m dup ∙ distinct_Perm q m dup

abbrev either : {X : Type 0} → X → (SortedMap → X) → Option SortedMap → X
either x f none = x
either x f (some m) = f m

either-distinct :
    {X : Type 0} (c : SortedMap × Bool) (x : X) (f : SortedMap → X)
    → (if c.1 then x else f c.0) ≡ either x f (distinct c)
either-distinct (m, true) x f = refl
either-distinct (m, false) x f = refl

module _ (counters : CounterStore) (policies : PolicyCache) (domain : Text) (addend now : ℕ) where
  open counters use {Store}

  -- The answer to the map of a descriptor.
  abbrev answer : Option ℕ → Store → SortedMap → Store × DescriptorStatus × Bool
  answer hits s m = elim (lookup policies domain (descriptors_canonical m)) [
    | none ↦ (s, ok_status, false)
    | some policy ↦
        enforce counters policy domain (descriptors_canonical m) (effective_hits hits addend) now s
  ]

  -- What the service does with a descriptor depends on its map alone.
  limit_distinct :
      (d : Descriptor) (s : Store)
      → limit_descriptor counters policies domain addend now d s
        ≡ either
            (s, ok_status, false)
            (answer d.hits_addend s)
            (distinct (collect_entries [] false d.entries))
  unfolding limit_descriptor
  limit_distinct d s =
      either-distinct (collect_entries [] false d.entries) (s, ok_status, false)
        (answer d.hits_addend s)

  -- Two descriptors with the same entries in another order are answered alike, and count alike.
  pub limit_descriptor-Perm :
      (d e : Descriptor) (s : Store)
      → d.hits_addend ≡ e.hits_addend
      → Permᴰ d.entries e.entries
      → limit_descriptor counters policies domain addend now d s
        ≡ limit_descriptor counters policies domain addend now e s
  limit_descriptor-Perm d e s h p =
      rw (limit_distinct d s, limit_distinct e s, h, distinct_Perm p [] false)
