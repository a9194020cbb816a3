-- ===== src/Domain/Tests.antt =====
-- The wire-string theorems at concrete strings.
use flowplane.Base.{◌≡◌, ◌↔◌}
use flowplane.Domain.Error.{ok}
use flowplane.Base.{chars, as_bytes}
use flowplane.Domain.Name.{validate_name}
use flowplane.Domain.Grammar.{IsName, validate_name_iff}

validate_name_iff_example :
    (validate_name (chars "payments-api") ≡ ok tt) ↔ IsName (as_bytes (chars "payments-api"))
validate_name_iff_example = validate_name_iff (chars "payments-api")
