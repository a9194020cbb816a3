-- ===== src/Ai/Tests.antt =====
-- The theorems of event framing at concrete buffers.
use flowplane.Base.{true, ℕ, ◌≤◌, ◌≡◌, refl, false, List, [], ◌∷◌, ◌++◌, Option, none, some, length}
use flowplane.Base.{Text, chars, ◌+◌, ◌*◌, ◌↔◌}
use flowplane.Domain.Error.{ok}
use flowplane.Ai.Budget.{
  AiBudgetSpec, enforcing, u64_bound, units_for_usage, units_for_usage_iff, AiRouteBackend,
  AiRouteSpec,
}
use flowplane.Ai.Sse.{
  OpenAiTokenUsage, sse_terminator_len, next_from, next_sse_event_end, complete_sse_events_end,
}
use flowplane.Ai.Framing.{next_sse_event_end-append}
use flowplane.Ai.Complete.{IsDone, IsReached, complete_sse_events_end-IsDone}

-- `a`, a blank line, and the start of the next event.
abbrev buffer : List ℕ
buffer = 97 ∷ 10 ∷ 13 ∷ 10 ∷ 98 ∷ []

no_usage : List ℕ → Option OpenAiTokenUsage
no_usage event = none

next_sse_event_end-append_example : next_sse_event_end (buffer ++ 10 ∷ 10 ∷ []) 0 ≡ some 4
unfolding next_sse_event_end next_from sse_terminator_len
next_sse_event_end-append_example = next_sse_event_end-append buffer (10 ∷ 10 ∷ []) 0 4 refl refl

complete_sse_events_end-IsDone_example :
    (complete_sse_events_end buffer true ≡ length buffer)
    × (complete_sse_events_end buffer false ≤ length buffer)
    × IsReached buffer (complete_sse_events_end buffer false)
    × IsDone buffer (complete_sse_events_end buffer false)
complete_sse_events_end-IsDone_example = complete_sse_events_end-IsDone buffer

abbrev budget : AiBudgetSpec
budget = record {
  mode = enforcing;
  limit_units = 1000;
  window_seconds = 60;
  provider_id = none;
  route_config_id = none;
  prompt_token_weight = 1;
  completion_token_weight = 3;
}

abbrev usage : OpenAiTokenUsage
usage = record { prompt_tokens = 10; completion_tokens = 20; total_tokens = 30 }

units_for_usage_iff_example :
    (units_for_usage budget usage ≡ ok 70) ↔ ((70 ≡ 10 * 1 + 20 * 3) × (70 ≤ u64_bound))
units_for_usage_iff_example = units_for_usage_iff budget usage 70

abbrev backend_for : List Text → AiRouteBackend
backend_for models = record {
  provider_id = 1;
  models = models;
  model_override = none;
  weight = 1;
  priority = 0;
}

abbrev two_backends : AiRouteSpec
two_backends = record {
  listener_port = 8080;
  path = chars "/v1/chat/completions";
  backends = backend_for (chars "gpt" ∷ []) ∷ backend_for [] ∷ [];
}
