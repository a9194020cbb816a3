-- ===== src/Plan.antt =====
-- Route plans that are generated from a learned API description
-- (crates/fp-core/src/services/route_generation.rs).
pub mod Names
pub mod Routes
pub mod Fresh
pub mod Named
pub mod Valid
mod Tests
