-- ===== src/Egress.antt =====
-- The advisory on egress hosts (crates/fp-core/src/services/egress_advisory.rs).
pub mod Addr
pub mod Mask
pub mod Contains
pub mod Policy
pub mod Denied
pub mod Hosts
pub mod Audit
pub mod Authority
pub mod Parse
mod Tests
