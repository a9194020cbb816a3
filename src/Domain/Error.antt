-- ===== src/Domain/Error.antt =====
-- The error taxonomy (crates/fp-domain/src/error.rs). A validation message with interpolated values
-- keeps its format string. Structured details are a list of fields.
use Prim.Native.Nat.{ℕ}
use Prim.Native.String.{String}
use flowplane.Base.{◌≡◌, refl, Bool, true, false, List, Option, none, some, arith}

pub data ErrorCode : Type 0 where
  validation_failed org_selector_required unauthorized forbidden not_found conflict : ErrorCode
  revision_mismatch quota_exceeded rate_limited payload_too_large invalid_config : ErrorCode
  unavailable internal : ErrorCode

-- `is_retryable`.
unfoldable pub is_retryable : ErrorCode → Bool
is_retryable rate_limited = true
is_retryable unavailable = true
is_retryable _ = false

pub record DomainError : Type 0 where
  pub code : ErrorCode
  pub message : String
  pub hint : Option String
  pub details : Option (List (String × String))
  pub retry_after_seconds : Option ℕ

-- `DomainError::new`, and `validation` and `internal`, which fix the code.
abbrev pub new : ErrorCode → String → DomainError
new code message = record {
  code = code;
  message = message;
  hint = none;
  details = none;
  retry_after_seconds = none;
}

abbrev pub validation : String → DomainError
validation message = new validation_failed message

abbrev pub internal_error : String → DomainError
internal_error message = new internal message

abbrev pub with_hint : DomainError → String → DomainError
with_hint e hint = record e { hint = some hint }

abbrev pub with_details : DomainError → List (String × String) → DomainError
with_details e details = record e { details = some details }

abbrev pub with_retry_after : DomainError → ℕ → DomainError
with_retry_after e seconds = record e { retry_after_seconds = some seconds }

-- `DomainResult`.
pub data DomainResult {ℓ} (A : Type ℓ) : Type ℓ where
  ok : A → DomainResult A
  err : DomainError → DomainResult A

infixl 5 ◌>>=◌ ◌>>◌
abbrev pub ◌>>=◌ {ℓ κ} :
    {A : Type ℓ} {B : Type κ} → DomainResult A → (A → DomainResult B) → DomainResult B
ok a >>= f = f a
err e >>= f = err e

abbrev pub ◌>>◌ {ℓ} : {B : Type ℓ} → DomainResult (Unit {0}) → DomainResult B → DomainResult B
m >> k = m >>= λ _. k

-- `if reject { return Err(e) }`.
abbrev pub reject_if : Bool → DomainError → DomainResult (Unit {0})
reject_if true e = err e
reject_if false e = ok tt

-- `ok_or_else` with the error already built.
abbrev pub ok_or {ℓ} : {A : Type ℓ} → Option A → DomainError → DomainResult A
ok_or none e = err e
ok_or (some a) e = ok a

abbrev pub is_ok {ℓ} : {A : Type ℓ} → DomainResult A → Bool
is_ok (ok a) = true
is_ok (err e) = false

-- A sequence of checks succeeds only if each of them does.
pub >>-eq-ok : (m k : DomainResult (Unit {0})) → (m >> k) ≡ ok tt → (m ≡ ok tt) × (k ≡ ok tt)
>>-eq-ok (ok tt) k h = (refl, h)
>>-eq-ok (err e) k h = cc

pub reject_if-eq-ok : (b : Bool) (e : DomainError) → reject_if b e ≡ ok tt → b ≡ false
reject_if-eq-ok b e h = ground arith
