-- ===== src/Rls.antt =====
-- The rate-limit service (crates/flowplane-rls): pushed policies, the fixed-window counters, and the
-- gRPC decision that Envoy asks for.
pub mod Canonical
pub mod Policy
pub mod Order
pub mod Replace
pub mod Counter
pub mod Memory
pub mod Service
pub mod Window
pub mod Admission
pub mod Isolation
mod Tests
