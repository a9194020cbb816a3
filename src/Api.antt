-- ===== src/Api.antt =====
-- The HTTP layer of the control plane (crates/fp-api): the write throttle of a tenant.
pub mod Throttle
pub mod Entry
pub mod Alone
pub mod Budget
pub mod Retry
mod Tests
