-- ===== src/Domain/Grammar.antt =====
-- The name rule as a grammar.
use flowplane.Base.{
  ℕ, ◌≤◌, ◌≡◌, ◌↔◌, ◌⊎◌, refl, Bool, true, false, List, [], ◌∷◌, Text, as_bytes, length, nat_eq,
  arith,
}
use flowplane.Domain.Error.{ok}
use flowplane.Domain.Name.{
  name_max_len, hyphen, is_lowercase_or_digit, valid_body, valid_start, ends_with, validate_name,
}

-- A letter or a digit comes first.
abbrev starts_plain : List ℕ → Bool
starts_plain [] = false
starts_plain (b ∷ bytes) = is_lowercase_or_digit b

abbrev starts_hyphen : List ℕ → Bool
starts_hyphen [] = false
starts_hyphen (b ∷ bytes) = nat_eq b hyphen

-- Lowercase letters and digits, and hyphens that one of them follows.
abbrev pub IsBody : List ℕ → Type 0
IsBody [] = Unit
IsBody (b ∷ bytes) =
    ((is_lowercase_or_digit b ≡ true) ⊎ ((b ≡ hyphen) × (starts_plain bytes ≡ true))) × IsBody bytes

abbrev pub IsName : List ℕ → Type 0
IsName bytes =
    (1 ≤ length bytes) × (length bytes ≤ name_max_len) × (valid_start bytes ≡ true) × IsBody bytes

abbrev Scanned : Bool → List ℕ → Type 0
Scanned prev_hyphen bytes = (valid_body prev_hyphen bytes ≡ true) × (ends_with bytes hyphen ≡ false)

IsBody-sound :
    (prev_hyphen : Bool) (bytes : List ℕ)
    → Scanned prev_hyphen bytes
    → IsBody bytes × (prev_hyphen ≡ true → starts_hyphen bytes ≡ false)
unfolding valid_body
IsBody-sound prev_hyphen [] (v, e) = (tt, λ h. refl)
IsBody-sound prev_hyphen (b ∷ []) (v, e) = ((ground arith, tt), λ h. ground arith)
IsBody-sound prev_hyphen (b ∷ d ∷ bytes) (v, e) =
    let (body, next) = IsBody-sound (nat_eq b hyphen) (d ∷ bytes) (ground arith, e) in
    ((ground (arith, next, body.0), body), λ h. ground arith)

IsBody-complete :
    (prev_hyphen : Bool) (bytes : List ℕ)
    → IsBody bytes
    → (prev_hyphen ≡ true → starts_hyphen bytes ≡ false)
    → Scanned prev_hyphen bytes
unfolding valid_body
IsBody-complete prev_hyphen [] b h = (refl, refl)
IsBody-complete prev_hyphen (b ∷ []) (here, _) h = (ground arith, ground arith)
IsBody-complete prev_hyphen (b ∷ d ∷ bytes) (here, later) h =
    let (v, e) = IsBody-complete (nat_eq b hyphen) (d ∷ bytes) later (λ k. ground arith) in
    (ground arith, e)

starts_inside : (bytes : List ℕ) → valid_start bytes ≡ true → 1 ≤ length bytes
starts_inside [] h = cc
starts_inside (b ∷ bytes) h = omega arith

-- A name is accepted exactly when its bytes are 1 to 100 lowercase letters, digits and hyphens, a letter
-- first, and each hyphen is followed by a letter or a digit.
pub validate_name_iff : (name : Text) → (validate_name name ≡ ok tt) ↔ IsName (as_bytes name)
unfolding validate_name
validate_name_iff name = (
  λ h.
      let (b, _) = IsBody-sound false (as_bytes name) (ground arith, ground arith) in
      (starts_inside (as_bytes name) (ground arith), ground arith, ground arith, b),
  λ (low, high, start, body).
      let (v, e) = IsBody-complete false (as_bytes name) body (λ k. cc) in ground arith,
)
