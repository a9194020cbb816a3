-- ===== src/Domain/Name.antt =====
-- The name rule of every resource (crates/fp-domain/src/identity.rs).
use flowplane.Base.{
  ℕ, Bool, true, false, not, ◌&&◌, ◌||◌, List, [], ◌∷◌, Text, as_bytes, length, is_empty, leb, ltb,
  nat_eq, if◌then◌else◌,
}
use flowplane.Domain.Error.{DomainResult, validation, reject_if, ◌>>◌}

abbrev pub name_max_len : ℕ
name_max_len = 100

abbrev pub hyphen : ℕ
hyphen = 45

-- `is_ascii_lowercase`, and the first pattern of the match.
abbrev pub is_lowercase : ℕ → Bool
is_lowercase b = leb 97 b && leb b 122

abbrev pub is_lowercase_or_digit : ℕ → Bool
is_lowercase_or_digit b = is_lowercase b || leb 48 b && leb b 57

-- The loop over the bytes, and the value it leaves in `valid_body`.
unfoldable pub valid_body : Bool → List ℕ → Bool
valid_body prev_hyphen [] = true
valid_body prev_hyphen (b ∷ bytes) =
    let rest = valid_body (nat_eq b hyphen) bytes in
    if is_lowercase_or_digit b
    then rest
    else if nat_eq b hyphen
    then not prev_hyphen && rest
    else false

abbrev pub valid_start : List ℕ → Bool
valid_start [] = false
valid_start (b ∷ bytes) = is_lowercase b

-- `ends_with`.
abbrev pub ends_with : List ℕ → ℕ → Bool
ends_with [] c = false
ends_with (b ∷ []) c = nat_eq b c
ends_with (b ∷ d ∷ bytes) c = ends_with (d ∷ bytes) c

unfoldable pub validate_name : Text → DomainResult (Unit {0})
unfolding valid_body as_bytes
validate_name name = do
  reject_if (is_empty (as_bytes name) || ltb name_max_len (length (as_bytes name)))
      (validation "name must be 1-{NAME_MAX_LEN} characters, got {}")
  reject_if
      (not (valid_start (as_bytes name))
        || not (valid_body false (as_bytes name))
        || ends_with (as_bytes name) hyphen)
      (validation "\"{}\" is not a valid name")
