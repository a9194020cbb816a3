-- ===== src/Domain/OrgRole.antt =====
-- Org-level roles (crates/fp-domain/src/identity.rs).
use Prim.Native.String.{String}
use text.Mathlib.Text.{◌==◌ as str_eq}
use flowplane.Base.{ℕ, Bool, true, false, if◌then◌else◌}
use flowplane.Domain.Error.{DomainResult, ok, err, validation}

pub data OrgRole : Type 0 where
  viewer member admin owner : OrgRole

-- The derived order: the position of the variant.
abbrev pub power : OrgRole → ℕ
power viewer = 0
power member = 1
power admin = 2
power owner = 3

unfoldable pub as_str : OrgRole → String
as_str viewer = "viewer"
as_str member = "member"
as_str admin = "admin"
as_str owner = "owner"

unfoldable pub parse : String → DomainResult OrgRole
parse raw =
    if str_eq raw "viewer"
    then ok viewer
    else if str_eq raw "member"
    then ok member
    else if str_eq raw "admin"
    then ok admin
    else if str_eq raw "owner"
    then ok owner
    else err (validation "\"{other}\" is not an org role (viewer, member, admin, owner)")

-- Admins and owners get implicit access to every team in their org.
unfoldable pub is_org_admin : OrgRole → Bool
is_org_admin admin = true
is_org_admin owner = true
is_org_admin _ = false
