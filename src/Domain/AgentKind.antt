-- ===== src/Domain/AgentKind.antt =====
-- The structural partition of machine identities (crates/fp-domain/src/identity.rs).
use Prim.Native.String.{String}
use text.Mathlib.Text.{◌==◌ as str_eq}
use flowplane.Base.{if◌then◌else◌}
use flowplane.Domain.Error.{DomainResult, ok, err, validation}

pub data AgentKind : Type 0 where
  cp_tool gateway_tool api_consumer : AgentKind

unfoldable pub as_str : AgentKind → String
as_str cp_tool = "cp-tool"
as_str gateway_tool = "gateway-tool"
as_str api_consumer = "api-consumer"

unfoldable pub parse : String → DomainResult AgentKind
parse raw =
    if str_eq raw "cp-tool"
    then ok cp_tool
    else if str_eq raw "gateway-tool"
    then ok gateway_tool
    else if str_eq raw "api-consumer"
    then ok api_consumer
    else err (validation "\"{other}\" is not an agent kind (cp-tool, gateway-tool, api-consumer)")
