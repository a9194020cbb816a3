-- ===== src/Plan/Fresh.antt =====
-- The search for a new name ends, and every route of a plan has a name of its own.
use flowplane.Base.{
  ℕ, zero, suc, ◌+◌, ◌≤◌, ◌<◌, ◌≡◌, ◌≢◌, ◌∙◌, refl, subst, inl, inr, true, false, not, Bool-cases,
  List, [], ◌∷◌, ◌++◌, Option, none, some, Text, take, retain, length, ◌==◌, List-Eq, ℕ-Eq, arith,
}
use flowplane.Base.Decimal.{to_string-injective}
use flowplane.Base.SortedMap.{text_eq_iff}
use flowplane.Domain.Checks.{seen_before}
use flowplane.Plan.Names.{candidate, unique_from, unique_name}

append-cancel : {s t : Text} (front : Text) → (front ++ s) ≡ (front ++ t) → s ≡ t
append-cancel [] h = h
append-cancel (c ∷ front) h = append-cancel front cc

candidate-injective : (base : Text) (m n : ℕ) → candidate base m ≡ candidate base n → m ≡ n
unfolding candidate
candidate-injective base m n h =
    let same = append-cancel (take 95 base) h in to_string-injective m n cc

-- The names without one of them.
abbrev without : Text → List Text → List Text
without name names = retain (λ k. not (k == name)) names

length-without_le : (name : Text) (names : List Text) → length (without name names) ≤ length names
length-without_le name [] = omega arith
length-without_le name (k ∷ names) = ground (arith, length-without_le name names)

length-without :
    (name : Text) (names : List Text)
    → seen_before name names ≡ true
    → length (without name names) < length names
length-without name [] h = cc
length-without name (k ∷ names) h =
    ground (arith, length-without name names, length-without_le name names)

seen_before-without :
    (name key : Text) (names : List Text)
    → key ≢ name
    → seen_before key (without name names) ≡ seen_before key names
seen_before-without name key [] ne = refl
seen_before-without name key (k ∷ names) ne =
    ground (arith, seen_before-without name key names ne, text_eq_iff k name, text_eq_iff k key)

-- A name that was tried before makes no difference.
unique_from-without :
    (fuel suffix tried : ℕ) (base : Text) (names : List Text)
    → tried < suffix
    → unique_from fuel suffix base (without (candidate base tried) names)
      ≡ unique_from fuel suffix base names
unfolding unique_from
unique_from-without zero suffix tried base names lt = refl
unique_from-without (suc fuel) suffix tried base names lt =
    rw
      (
        seen_before-without (candidate base tried) (candidate base suffix) names
            (λ h. let same = candidate-injective base suffix tried h in omega arith),
        unique_from-without fuel (suffix + 1) tried base names (omega arith),
      )
      refl

-- Each round without a new name uses up one of the names.
unique_from-none :
    (fuel suffix : ℕ) (base : Text) (names : List Text)
    → unique_from fuel suffix base names ≡ none
    → fuel ≤ length names
unfolding unique_from
unique_from-none zero suffix base names h = omega arith
unique_from-none (suc fuel) suffix base names h =
    elim (Bool-cases (seen_before (candidate base suffix) names)) [
      | inl taken ↦
          let smaller = length-without (candidate base suffix) names taken in
          let rest =
            unique_from-none fuel (suffix + 1) base (without (candidate base suffix) names) (
              unique_from-without fuel (suffix + 1) suffix base names (omega arith)
              ∙ ground arith) in
          omega (arith, smaller, rest)
      | inr new ↦ absurd (ground arith)
    ]

unique_from-some :
    (fuel suffix : ℕ) (base : Text) (names : List Text) {name : Text}
    → unique_from fuel suffix base names ≡ some name
    → seen_before name names ≡ false
unfolding unique_from
unique_from-some zero suffix base names h = cc
unique_from-some (suc fuel) suffix base names {name} h =
    elim (Bool-cases (seen_before (candidate base suffix) names)) [
      | inl taken ↦ unique_from-some fuel (suffix + 1) base names (ground arith)
      | inr new ↦ subst (λ k. seen_before k names ≡ false) (ground arith) new
    ]

-- The search ends, with a name that is not in the set.
pub unique_name-IsNew :
    (base : Text) (names : List Text)
    → (name : Text) × (unique_name base names ≡ some name) × (seen_before name names ≡ false)
unfolding unique_name
unique_name-IsNew base names = elim (Bool-cases (seen_before base names)) [
  | inl taken ↦ rw taken (searched (unique_from (suc (length names)) 2 base names) refl)
  | inr new ↦ rw new (base, refl, new)
]
  where
    searched :
        (found : Option Text)
        → unique_from (suc (length names)) 2 base names ≡ found
        → (name : Text) × (found ≡ some name) × (seen_before name names ≡ false)
    searched none h =
        let short = unique_from-none (suc (length names)) 2 base names h in absurd (omega arith)
    searched (some name) h = (name, refl, unique_from-some (suc (length names)) 2 base names h)
