-- ===== src/Authz.antt =====
-- The authorization decision engine (crates/fp-core/src/authz.rs) and the mapping of a denial to a
-- wire error (crates/fp-core/src/services/mod.rs).
pub mod Grants
pub mod Principal
pub mod Engine
pub mod Policy
pub mod Sound
pub mod Boundary
mod Tests
