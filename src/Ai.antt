-- ===== src/Ai.antt =====
-- The AI gateway (crates/fp-domain/src/ai.rs): the framing of server-sent events that streams
-- through the gateway, and the accounting of the tokens they report.
pub mod Sse
pub mod Framing
pub mod Complete
pub mod Strip
mod Tests
pub mod Budget
pub mod Backends
