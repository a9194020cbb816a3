-- ===== src/Domain/Identity.antt =====
-- Ids and team references (crates/fp-domain/src/id.rs, authz.rs). An id is a UUID; the code only
-- compares ids, so each id type is a number.
use flowplane.Base.{ℕ}

abbrev pub OrgId : Type 0
OrgId = ℕ

abbrev pub TeamId : Type 0
TeamId = ℕ

abbrev pub UserId : Type 0
UserId = ℕ

abbrev pub AgentId : Type 0
AgentId = ℕ

-- A team with the org that owns it, as resolved from the database.
pub record TeamRef : Type 0 where
  pub id : TeamId
  pub org_id : OrgId
