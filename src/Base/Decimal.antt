-- ===== src/Base/Decimal.antt =====
-- `u64::to_string`: the decimal digits of a number, and that they say which number it is.
use flowplane.Base.{
  is_empty, false, ℕ, zero, suc, ◌+◌, ◌-◌, ◌*◌, ◌/◌, ◌%◌, ◌≤◌, ◌≡◌, refl, sym, ap, ◌∙◌, [], ◌∷◌,
  ◌++◌, Text, ltb, if◌then◌else◌, Bool-cases, inl, inr, arith,
}

-- The fuel is a bound on the number of digits.
unfoldable pub digits : ℕ → ℕ → Text
digits zero n = []
digits (suc fuel) n =
    let rest = digits fuel (n / 10) in
    if ltb n 10 then (48 + n) ∷ [] else rest ++ (48 + n % 10) ∷ []

unfoldable pub to_string : ℕ → Text
unfolding digits
to_string n = digits (suc n) n

value_from : ℕ → Text → ℕ
value_from acc [] = acc
value_from acc (c ∷ s) = value_from (acc * 10 + (c - 48)) s

value_from-append :
    (acc c : ℕ) (s : Text) → value_from acc (s ++ c ∷ []) ≡ value_from acc s * 10 + (c - 48)
unfolding value_from
value_from-append acc c [] = refl
value_from-append acc c (d ∷ s) = value_from-append (acc * 10 + (d - 48)) c s

-- With enough fuel the digits have the value of the number.
value_from-digits : (fuel n : ℕ) → n ≤ fuel → value_from 0 (digits (suc fuel) n) ≡ n
unfolding digits value_from
value_from-digits zero n le = ground arith
value_from-digits (suc fuel) n le = elim (Bool-cases (ltb n 10)) [
  | inl small ↦ rw small (omega arith)
  | inr large ↦
      rw
        (
          large,
          value_from-append 0 (48 + n % 10) (digits (suc fuel) (n / 10)),
          value_from-digits fuel (n / 10) (ground arith),
        )
        (omega arith)
]

-- Two numbers with the same digits are the same number.
pub to_string-injective : (m n : ℕ) → to_string m ≡ to_string n → m ≡ n
unfolding to_string
to_string-injective m n h =
    sym (value_from-digits m m (omega arith))
    ∙ ap (value_from 0) h
    ∙ value_from-digits n n (omega arith)

digits-ne-nil : (fuel n : ℕ) → is_empty (digits (suc fuel) n) ≡ false
unfolding digits
digits-ne-nil fuel n = elim (Bool-cases (ltb n 10)) [
  | inl small ↦ rw small refl
  | inr large ↦ rw large (append-single (digits fuel (n / 10)) (48 + n % 10))
]
  where
    append-single : (s : Text) (c : ℕ) → is_empty (s ++ c ∷ []) ≡ false
    append-single [] c = refl
    append-single (d ∷ s) c = refl

-- A number has a digit.
pub to_string-ne-nil : (n : ℕ) → is_empty (to_string n) ≡ false
unfolding to_string
to_string-ne-nil n = digits-ne-nil n n
