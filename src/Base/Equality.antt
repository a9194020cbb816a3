-- ===== src/Base/Equality.antt =====
-- Equality tests as an interface: what a key of a map must offer (Rust's `Eq`).
use mathlib.Core.Path.{◌≡◌}
use mathlib.Core.Logic.{◌↔◌}
use mathlib.Core.Bool.{Bool, true, false, ◌&&◌}
use mathlib.Core.List.{List, [], ◌∷◌}
use native.Mathlib.Omega.{arith}
use Prim.Native.Nat.{ℕ}
use flowplane.Base.Tests.{nat_eq, nat_eq_iff}

pub record Eq {ℓ} (A : Type ℓ) : Type ℓ where
  pub eq : A → A → Bool
  pub eq_iff : (this other : A) → (eq this other ≡ true) ↔ (this ≡ other)

infix 50 ◌==◌
module _ {ℓ} {A : Type ℓ} ⦃e : Eq A⦄ where
  abbrev pub ◌==◌ : A → A → Bool
  ◌==◌ x y = e.eq x y

instance abbrev pub ℕ-Eq : Eq ℕ
ℕ-Eq = record { eq = nat_eq; eq_iff = nat_eq_iff }

abbrev pub list_eq {ℓ} : {A : Type ℓ} → (A → A → Bool) → List A → List A → Bool
list_eq eq [] [] = true
list_eq eq (x ∷ xs) (y ∷ ys) = eq x y && list_eq eq xs ys
list_eq eq _ _ = false

pub list_eq_iff {ℓ} :
    {A : Type ℓ} (e : Eq A) (xs ys : List A) → (list_eq e.eq xs ys ≡ true) ↔ (xs ≡ ys)
list_eq_iff e [] [] = ground arith
list_eq_iff e [] (y ∷ ys) = ground arith
list_eq_iff e (x ∷ xs) [] = ground arith
list_eq_iff e (x ∷ xs) (y ∷ ys) = ground (arith, e.eq_iff x y, list_eq_iff e xs ys)

instance abbrev pub List-Eq {ℓ} : {A : Type ℓ} ⦃e : Eq A⦄ → Eq (List A)
List-Eq ⦃e⦄ = record { eq = list_eq e.eq; eq_iff = list_eq_iff e }
