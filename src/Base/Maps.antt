-- ===== src/Base/Maps.antt =====
-- A map as an association list (`HashMap`, `BTreeMap` where the order of keys is not read).
use mathlib.Core.Path.{◌≡◌, refl}
use mathlib.Core.List.{List, [], ◌∷◌}
use mathlib.Core.Option.{Option, none, some}
use native.Mathlib.Omega.{arith}
use flowplane.Base.Tests.{Bool-cases, if◌then◌else◌}
use flowplane.Base.Lists.{All, retain}
use mathlib.Core.Bool.{Bool}
use mathlib.Core.Path.{ap, subst}
use mathlib.Core.Logic.{◌≢◌, inl, inr}
use flowplane.Base.Equality.{Eq, ◌==◌}

abbrev pub Dict {ℓ κ} : Type ℓ → Type κ → Type (ℓ ⊔ κ)
Dict K V = List (K × V)

module _ {ℓ κ} {K : Type ℓ} {V : Type κ} ⦃e : Eq K⦄ where
  unfoldable pub lookup : K → Dict K V → Option V
  lookup key [] = none
  lookup key ((this, value) ∷ rest) = if this == key then some value else lookup key rest

  -- `insert` replaces the value of a key that is there.
  unfoldable pub insert : K → V → Dict K V → Dict K V
  insert key value [] = (key, value) ∷ []
  insert key value ((this, old) ∷ rest) =
      if this == key then (key, value) ∷ rest else (this, old) ∷ insert key value rest

  pub lookup-insert :
      (key asked : K) (value : V) (dict : Dict K V)
      → lookup asked (insert key value dict)
        ≡ (if key == asked then some value else lookup asked dict)
  unfolding lookup insert
  lookup-insert key asked value [] = refl
  lookup-insert key asked value ((this, old) ∷ rest) = ground (
    arith,
    e.eq_iff this key,
    e.eq_iff this asked,
    e.eq_iff key asked,
    lookup-insert key asked value rest,
  )

  pub All-insert {μ} :
      (P : K × V → Type μ) (k : K) (v : V) (m : Dict K V)
      → P (k, v)
      → All P m
      → All P (insert k v m)
  unfolding insert
  All-insert P k v [] p h = (p, tt)
  All-insert P k v ((j, w) ∷ m) p (h, hs) = elim (Bool-cases (j == k)) [
    | inl same ↦ rw same (p, hs)
    | inr other ↦ rw other (h, All-insert P k v m p hs)
  ]

  pub All-lookup {μ} :
      (P : K × V → Type μ) (k : K) (m : Dict K V) {v : V} → All P m → lookup k m ≡ some v → P (k, v)
  unfolding lookup
  All-lookup P k [] h found = cc
  All-lookup P k ((j, w) ∷ m) (h, hs) found = elim (Bool-cases (j == k)) [
    | inl same ↦ subst P (ground (arith, e.eq_iff j k)) h
    | inr other ↦ All-lookup P k m hs (ground arith)
  ]

  pub lookup-insert_self : (k : K) (v : V) (m : Dict K V) → lookup k (insert k v m) ≡ some v
  lookup-insert_self k v m = rw (lookup-insert k k v m, (e.eq_iff k k).1 refl)

  pub lookup-insert_ne :
      (k j : K) (v : V) (m : Dict K V) → k ≢ j → lookup j (insert k v m) ≡ lookup j m
  lookup-insert_ne k j v m ne = ground (arith, lookup-insert k j v m, e.eq_iff k j)

  -- No key is held twice.
  abbrev pub IsKeyed : Dict K V → Type (ℓ ⊔ κ)
  IsKeyed [] = Unit
  IsKeyed ((k, v) ∷ m) = (lookup k m ≡ none) × IsKeyed m

  pub insert-IsKeyed : (k : K) (v : V) (m : Dict K V) → IsKeyed m → IsKeyed (insert k v m)
  unfolding insert lookup
  insert-IsKeyed k v [] h = (refl, tt)
  insert-IsKeyed k v ((j, w) ∷ m) (h, hs) = elim (Bool-cases (j == k)) [
    | inl same ↦ rw same (ground (arith, h, e.eq_iff j k), hs)
    | inr other ↦ rw other (
      ground (arith, h, lookup-insert k j v m, e.eq_iff j k, e.eq_iff k j),
      insert-IsKeyed k v m hs,
    )
  ]

  module _ (p : K × V → Bool) where
    lookup-retain-none : (k : K) (m : Dict K V) → lookup k m ≡ none → lookup k (retain p m) ≡ none
    unfolding lookup
    lookup-retain-none k [] h = refl
    lookup-retain-none k ((j, w) ∷ m) h = ground (arith, lookup-retain-none k m)

    pub retain-IsKeyed : (m : Dict K V) → IsKeyed m → IsKeyed (retain p m)
    retain-IsKeyed [] h = tt
    retain-IsKeyed ((j, w) ∷ m) (h, hs) = elim (Bool-cases (p (j, w))) [
      | inl keep ↦ rw keep (lookup-retain-none j m h, retain-IsKeyed m hs)
      | inr gone ↦ rw gone (retain-IsKeyed m hs)
    ]

    -- What is kept of the entry of a key.
    abbrev pub kept : K → Option V → Option V
    kept k none = none
    kept k (some v) = if p (k, v) then some v else none

    pub lookup-retain :
        (k : K) (m : Dict K V) → IsKeyed m → lookup k (retain p m) ≡ kept k (lookup k m)
    unfolding lookup
    lookup-retain k [] h = refl
    lookup-retain k ((j, w) ∷ m) (h, hs) = elim (Bool-cases (j == k)) [
      | inl same ↦
          let eq : j ≡ k = (e.eq_iff j k).0 same in
          elim (Bool-cases (p (j, w))) [
            | inl keep ↦ rw (keep, same) (ground (arith, ap (λ i. p (i, w)) eq))
            | inr gone ↦
                rw (gone, same)
                  (ground (
                    arith,
                    ap (λ i. p (i, w)) eq,
                    lookup-retain-none k m (subst (λ i. lookup i m ≡ none) eq h),
                  ))
          ]
      | inr other ↦ elim (Bool-cases (p (j, w))) [
        | inl keep ↦ rw (keep, other) (lookup-retain k m hs)
        | inr gone ↦ rw (gone, other) (lookup-retain k m hs)
      ]
    ]
