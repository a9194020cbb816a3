-- ===== src/Ai/Backends.antt =====
-- Which backends may serve a model.
use mathlib.Core.List.{Memᴰ}
use flowplane.Base.{
  ℕ, zero, suc, ◌+◌, ◌≡◌, ◌↔◌, ◌⊎◌, refl, subst, Bool, true, false, List, [], ◌∷◌, some, Text,
  get_elem?, if◌then◌else◌, arith, inl, inr,
}
use flowplane.Ai.Budget.{
  AiRouteBackend, AiRouteSpec, serves, eligible_from, eligible_backend_indexes,
}

Memᴰ-if :
    (b : Bool) {i x : ℕ} {xs : List ℕ}
    → Memᴰ i (if b then x ∷ xs else xs)
    → ((b ≡ true) × (i ≡ x)) ⊎ Memᴰ i xs
Memᴰ-if true (Memᴰ.head e) = inl (refl, e)
Memᴰ-if true (Memᴰ.tail m) = inr m
Memᴰ-if false m = inr m

if-Memᴰ : (b : Bool) (x : ℕ) {i : ℕ} {xs : List ℕ} → Memᴰ i xs → Memᴰ i (if b then x ∷ xs else xs)
if-Memᴰ true x m = Memᴰ.tail m
if-Memᴰ false x m = m

abbrev pub IsServed : List AiRouteBackend → Text → ℕ → Type 0
IsServed backends model i =
    (b : AiRouteBackend) × (get_elem? backends i ≡ some b) × (serves model b ≡ true)

eligible_from_sound :
    (idx : ℕ) (backends : List AiRouteBackend) (model : Text) (i : ℕ)
    → Memᴰ i (eligible_from idx backends model)
    → (k : ℕ) × (i ≡ idx + k) × IsServed backends model k
unfolding eligible_from
eligible_from_sound idx [] model i m = elim m [ ]
eligible_from_sound idx (b ∷ bs) model i m = elim (Memᴰ-if (serves model b) m) [
  | inl (ok_here, e) ↦ (0, omega (arith, e), (b, refl, ok_here))
  | inr later ↦
      let (k, e, served) = eligible_from_sound (idx + 1) bs model i later in
      (suc k, omega (arith, e), served)
]

eligible_from_complete :
    (idx : ℕ) (backends : List AiRouteBackend) (model : Text) (k : ℕ)
    → IsServed backends model k
    → Memᴰ (idx + k) (eligible_from idx backends model)
unfolding eligible_from
eligible_from_complete idx [] model k (b, e, s) = cc
eligible_from_complete idx (c ∷ bs) model zero (b, e, s) =
    let here : serves model c ≡ true = ground arith in
    let first : idx + 0 ≡ idx = omega arith in rw (here, first) (Memᴰ.head refl)
eligible_from_complete idx (c ∷ bs) model (suc k) (b, e, s) = if-Memᴰ (serves model c) idx (
    subst (λ j. Memᴰ j (eligible_from (idx + 1) bs model)) (omega arith)
      (eligible_from_complete (idx + 1) bs model k (b, e, s)))

-- The eligible indexes are exactly those of the backends that serve the model: the ones that name it,
-- and the ones that name no model.
pub eligible_backend_indexes_iff :
    (spec : AiRouteSpec) (model : Text) (i : ℕ)
    → Memᴰ i (eligible_backend_indexes spec model) ↔ IsServed spec.backends model i
unfolding eligible_backend_indexes
eligible_backend_indexes_iff spec model i = (
  λ m.
      let (k, e, served) = eligible_from_sound 0 spec.backends model i m in
      let same : k ≡ i = omega (arith, e) in
      subst (λ j. IsServed spec.backends model j) same served,
  λ served.
      let same : 0 + i ≡ i = omega arith in
      subst (λ j. Memᴰ j (eligible_from 0 spec.backends model)) same
        (eligible_from_complete 0 spec.backends model i served),
)
