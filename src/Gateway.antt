-- ===== src/Gateway.antt =====
-- The specifications of gateway resources (crates/fp-domain/src/gateway) and what their validators
-- accept.
pub mod Cluster
pub mod Upstream
pub mod Accepted
pub mod Matchers
pub mod Filters
pub mod FilterRules
pub mod HeaderRules
pub mod SecurityRules
pub mod Scopes
pub mod RouteConfig
pub mod MatchRules
pub mod RouteRules
pub mod Routes
pub mod Listener
pub mod Listeners
mod Tests
