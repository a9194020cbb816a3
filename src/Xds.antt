-- ===== src/Xds.antt =====
-- The xDS server (crates/fp-xds): the per-team snapshot cache with its quarantine of rejected
-- resources, and the ADS stream that serves it.
pub mod Resource
pub mod Quarantine
pub mod Served
pub mod Nack
pub mod Step
pub mod Rollback
pub mod Team
pub mod Ads
pub mod Handlers
pub mod Push
pub mod Signal
pub mod Install
pub mod Reply
mod Tests
mod StreamTests
