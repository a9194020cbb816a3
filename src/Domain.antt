-- ===== src/Domain.antt =====
-- The vocabulary crate (crates/fp-domain): errors, identities, the grant vocabulary.
pub mod Error
pub mod Identity
pub mod OrgRole
pub mod AgentKind
pub mod Resource
pub mod Action
pub mod RateLimit
pub mod Name
pub mod Grammar
pub mod Wire
mod Tests
pub mod Checks
