-- ===== src/Plan/Tests.antt =====
-- Generated names on concrete operations.
use flowplane.Base.{
  ℕ, ◌≡◌, refl, true, false, List, [], ◌∷◌, ◌++◌, some, Text, chars, map, replicate, ascii_lower,
  is_ascii_uppercase, as_bytes, arith, trim_end,
}
use flowplane.Base.Decimal.{to_string}
use flowplane.Domain.Error.{is_ok, ok}
use flowplane.Domain.Checks.{Distinct}
use flowplane.Domain.Name.{valid_body, validate_name}
use flowplane.Gateway.Matchers.{template}
use flowplane.Gateway.RouteConfig.{RouteRule}
use flowplane.Plan.Names.{
  candidate, unique_from, unique_name, push, push_all, trim_lead, or_generated, with_letter,
  lowered, normalize_name,
}
use flowplane.Plan.Routes.{Operation, openapi_routes}
use flowplane.Plan.Named.{openapi_routes-IsNamed}
use flowplane.Plan.Valid.{normalize_name-valid}

abbrev lower : ℕ → Text
lower c = ascii_lower c ∷ []

lower-plain : (c : ℕ) → is_ascii_uppercase (ascii_lower c) ≡ false
lower-plain c = ground arith

abbrev get_user : Operation
get_user = record { path = chars "/users"; method = chars "get"; operation_id = chars "User" }

abbrev put_user : Operation
put_user = record { path = chars "/users"; method = chars "put"; operation_id = chars "user" }

normalized : normalize_name lower (chars "/Get--Users/{id}") ≡ chars "get-users-id"
unfolding normalize_name lowered push_all push trim_lead or_generated with_letter trim_end
normalized = refl

second_name : unique_name (chars "user") (chars "user" ∷ []) ≡ some (chars "user-2")
unfolding unique_name unique_from candidate to_string
second_name = refl

openapi_routes-IsNamed_example :
    (routes : List RouteRule) × (openapi_routes lower (chars "users") (get_user ∷ put_user ∷ [])
      ≡ some (ok routes))
    × (map (λ r. r.matcher) routes
        ≡ map (λ (o : Operation). template o.path) (get_user ∷ put_user ∷ []))
    × Distinct (map (λ r. r.name) routes)
openapi_routes-IsNamed_example =
    openapi_routes-IsNamed lower (chars "users") get_user (put_user ∷ [])

normalize_name-valid_example :
    validate_name (normalize_name lower (chars "/Get--Users/{id}")) ≡ ok tt
normalize_name-valid_example =
    normalize_name-valid lower (λ c. (lower-plain c, tt)) (chars "/Get--Users/{id}")

-- A name with a hyphen at its 95th place is cut there, and the name that is tried has two hyphens
-- in a row.
abbrev long_name : Text
long_name = replicate 94 97 ++ chars "-b"

long_name_valid : is_ok (validate_name long_name) ≡ true
unfolding validate_name valid_body as_bytes
long_name_valid = refl

candidate_invalid : is_ok (validate_name (candidate long_name 2)) ≡ false
unfolding validate_name valid_body as_bytes candidate to_string
candidate_invalid = refl
