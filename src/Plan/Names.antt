-- ===== src/Plan/Names.antt =====
-- The routes of a plan and their names (`openapi_routes`, `unique_name`, `normalize_name`).
-- A name is ASCII, so that `truncate` counts characters.
use flowplane.Base.{
  ℕ, zero, suc, ◌+◌, List, [], ◌∷◌, ◌++◌, Option, none, some, Text, take, length, is_empty, chars,
  trim_end, ends_with_char, is_ascii_alphanumeric, nat_eq, if◌then◌else◌,
}
use flowplane.Base.Decimal.{to_string}
use flowplane.Domain.Checks.{seen_before}
use flowplane.Domain.Name.{hyphen, is_lowercase}

-- The name that is tried for a suffix.
unfoldable pub candidate : Text → ℕ → Text
candidate base suffix = take 95 base ++ hyphen ∷ to_string suffix

-- `for suffix in 2..`, until a name is new.
unfoldable pub unique_from : ℕ → ℕ → Text → List Text → Option Text
unique_from zero suffix base names = none
unique_from (suc fuel) suffix base names =
    let later = unique_from fuel (suffix + 1) base names in
    if seen_before (candidate base suffix) names then later else some (candidate base suffix)

-- The new name goes into the set. One round more than there are names is enough.
unfoldable pub unique_name : Text → List Text → Option Text
unique_name base names =
    if seen_before base names then unique_from (suc (length names)) 2 base names else some base

-- One round of the loop of `normalize_name`.
unfoldable pub push : Text → ℕ → Text
push out c =
    if is_ascii_alphanumeric c
    then out ++ c ∷ []
    else if ends_with_char hyphen out
    then out
    else out ++ hyphen ∷ []

unfoldable pub push_all : Text → Text → Text
push_all out [] = out
push_all out (c ∷ cs) = push_all (push out c) cs

-- `trim_matches` and the default.
unfoldable pub trim_lead : ℕ → Text → Text
trim_lead c [] = []
trim_lead c (d ∷ s) = let rest = trim_lead c s in if nat_eq d c then rest else d ∷ s

unfoldable pub or_generated : Text → Text
or_generated trimmed = if is_empty trimmed then chars "generated" else trimmed

unfoldable pub with_letter : Text → Text
with_letter [] = []
with_letter (c ∷ s) = if is_lowercase c then c ∷ s else chars "r-" ++ c ∷ s

module _ (to_lowercase : ℕ → Text) where
  unfoldable pub lowered : Text → Text
  lowered [] = []
  lowered (c ∷ s) = to_lowercase c ++ lowered s

  unfoldable pub normalize_name : Text → Text
  normalize_name raw =
      let trimmed = trim_end hyphen (trim_lead hyphen (push_all [] (lowered raw))) in
      trim_end hyphen (take 100 (with_letter (or_generated trimmed)))
