-- ===== src/Ai/Budget.antt =====
-- Budgets and the backends of an AI route (crates/fp-domain/src/ai.rs).
use flowplane.Base.{
  ℕ, ◌+◌, ◌*◌, ◌≤◌, ◌≡◌, ◌↔◌, Bool, false, not, ◌&&◌, ◌||◌, List, [], ◌∷◌, Option, none, some, Text,
  chars, length, any, is_empty, leb, ltb, nat_eq, List-Eq, ℕ-Eq, ◌==◌, if◌then◌else◌, is_blank,
  arith,
}
use flowplane.Domain.Error.{DomainResult, ok, validation, reject_if, ok_or, ◌>>=◌, ◌>>◌}
use flowplane.Ai.Sse.{OpenAiTokenUsage}

pub data AiBudgetMode : Type 0 where
  shadow enforcing : AiBudgetMode

pub record AiBudgetSpec : Type 0 where
  pub mode : AiBudgetMode
  pub limit_units : ℕ
  pub window_seconds : ℕ
  pub provider_id : Option ℕ
  pub route_config_id : Option ℕ
  pub prompt_token_weight : ℕ
  pub completion_token_weight : ℕ

unfoldable pub validate_budget : AiBudgetSpec → DomainResult (Unit {0})
validate_budget spec = do
  reject_if (nat_eq spec.limit_units 0)
      (validation "AI budget limit_units must be greater than zero")
  reject_if (nat_eq spec.window_seconds 0)
      (validation "AI budget window_seconds must be greater than zero")
  reject_if (nat_eq spec.prompt_token_weight 0 && nat_eq spec.completion_token_weight 0)
      (validation "AI budget token weights must not both be zero")

abbrev pub u64_bound : ℕ
u64_bound = 18446744073709551615

-- `checked_mul` and `checked_add` on `u64`.
abbrev pub checked : ℕ → Option ℕ
checked n = if leb n u64_bound then some n else none

unfoldable pub units_for_usage : AiBudgetSpec → OpenAiTokenUsage → DomainResult ℕ
units_for_usage spec usage =
    ok_or (checked (usage.prompt_tokens * spec.prompt_token_weight))
      (validation "AI budget prompt units overflow")
    >>= λ prompt.
        ok_or (checked (usage.completion_tokens * spec.completion_token_weight))
          (validation "AI budget completion units overflow")
        >>= λ completion.
            ok_or (checked (prompt + completion)) (validation "AI budget units overflow")

-- The units of a usage are the weighted sum of its tokens, and an error exactly when a `u64` cannot
-- hold that sum.
pub units_for_usage_iff :
    (spec : AiBudgetSpec) (usage : OpenAiTokenUsage) (units : ℕ)
    → (units_for_usage spec usage ≡ ok units) ↔ (
        (units
          ≡ usage.prompt_tokens * spec.prompt_token_weight
            + usage.completion_tokens * spec.completion_token_weight)
        × (units ≤ u64_bound))
unfolding units_for_usage
units_for_usage_iff spec usage units = ground arith

pub record AiRouteBackend : Type 0 where
  pub provider_id : ℕ
  pub models : List Text
  pub model_override : Option Text
  pub weight : ℕ
  pub priority : ℕ

pub record AiRouteSpec : Type 0 where
  pub listener_port : ℕ
  pub path : Text
  pub backends : List AiRouteBackend

abbrev pub is_blank_some : Option Text → Bool
is_blank_some none = false
is_blank_some (some s) = is_blank s

unfoldable pub validate_backend : AiRouteBackend → DomainResult (Unit {0})
validate_backend backend = do
  reject_if (nat_eq backend.weight 0 || ltb 1000 backend.weight)
      (validation "AI route backend weight must be 1-1000")
  reject_if (any is_blank backend.models)
      (validation "AI route backend models must not contain empty values")
  reject_if (is_blank_some backend.model_override)
      (validation "AI route backend model_override must not be empty")

unfoldable pub validate_backends : List AiRouteBackend → DomainResult (Unit {0})
unfolding validate_backend
validate_backends [] = ok tt
validate_backends (backend ∷ backends) = validate_backend backend >> validate_backends backends

unfoldable pub validate_route : AiRouteSpec → DomainResult (Unit {0})
unfolding validate_backends
validate_route spec = do
  reject_if (not (spec.path == chars "/v1/chat/completions"))
      (validation "S10 AI routes only support /v1/chat/completions")
  reject_if (is_empty spec.backends || ltb 32 (length spec.backends))
      (validation "AI route must include 1-32 backends")
  validate_backends spec.backends

abbrev pub serves : Text → AiRouteBackend → Bool
serves model backend = is_empty backend.models || any (λ m. m == model) backend.models

-- `enumerate().filter_map(...)` from an index on.
unfoldable pub eligible_from : ℕ → List AiRouteBackend → Text → List ℕ
eligible_from idx [] model = []
eligible_from idx (backend ∷ backends) model =
    let rest = eligible_from (idx + 1) backends model in
    if serves model backend then idx ∷ rest else rest

unfoldable pub eligible_backend_indexes : AiRouteSpec → Text → List ℕ
unfolding eligible_from
eligible_backend_indexes spec model = eligible_from 0 spec.backends model
