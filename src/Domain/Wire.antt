-- ===== src/Domain/Wire.antt =====
-- The wire strings of the vocabulary read back as what they were written from
-- (crates/fp-domain/src/authz.rs, identity.rs).
use Prim.Native.String.{String}
use text.Mathlib.Text.{◌==◌ as str_eq}
use text.Mathlib.TextEquality.{eq_iff}
use flowplane.Base.{◌≡◌, refl, sym, ◌↔◌, Option, some, find-passes, arith}
use flowplane.Domain.Error.{ok, ok_or, DomainError}
use flowplane.Domain.Resource
use flowplane.Domain.Resource.{Resource, all_resources}
use flowplane.Domain.Action
use flowplane.Domain.Action.{Action, all_actions}
use flowplane.Domain.OrgRole
use flowplane.Domain.OrgRole.{OrgRole}
use flowplane.Domain.AgentKind
use flowplane.Domain.AgentKind.{AgentKind}

ok_or-eq-ok {ℓ} :
    {A : Type ℓ} (o : Option A) (e : DomainError) {a : A} → ok_or o e ≡ ok a → o ≡ some a
ok_or-eq-ok o e h = ground arith

Resource_parse-as_str : (r : Resource) → Resource.parse (Resource.as_str r) ≡ ok r
unfolding Resource.parse
Resource_parse-as_str Resource.organizations = refl
Resource_parse-as_str _ = refl

-- A string parses as a resource exactly when it is that resource's wire string.
pub Resource_parse_iff :
    (raw : String) (r : Resource) → (Resource.parse raw ≡ ok r) ↔ (raw ≡ Resource.as_str r)
unfolding Resource.parse
Resource_parse_iff raw r = (
  λ h. sym (
      (eq_iff _ raw).0
        (find-passes (λ s. str_eq (Resource.as_str s) raw) all_resources (ok_or-eq-ok _ _ h))),
  λ e. rw e (Resource_parse-as_str r),
)

Action_parse-as_str : (a : Action) → Action.parse (Action.as_str a) ≡ ok a
unfolding Action.parse
Action_parse-as_str Action.read = refl
Action_parse-as_str _ = refl

-- A string parses as an action exactly when it is that action's wire string.
pub Action_parse_iff :
    (raw : String) (a : Action) → (Action.parse raw ≡ ok a) ↔ (raw ≡ Action.as_str a)
unfolding Action.parse
Action_parse_iff raw a = (
  λ h. sym (
      (eq_iff _ raw).0
        (find-passes (λ s. str_eq (Action.as_str s) raw) all_actions (ok_or-eq-ok _ _ h))),
  λ e. rw e (Action_parse-as_str a),
)

OrgRole_parse-as_str : (r : OrgRole) → OrgRole.parse (OrgRole.as_str r) ≡ ok r
unfolding OrgRole.parse OrgRole.as_str
OrgRole_parse-as_str OrgRole.viewer = refl
OrgRole_parse-as_str _ = refl

OrgRole_parse_sound :
    (raw : String) (r : OrgRole) → OrgRole.parse raw ≡ ok r → raw ≡ OrgRole.as_str r
unfolding OrgRole.parse OrgRole.as_str
OrgRole_parse_sound raw r h =
    ground (arith, eq_iff raw "viewer", eq_iff raw "member", eq_iff raw "admin", eq_iff raw "owner")

-- A string parses as an org role exactly when it is that role's wire string.
pub OrgRole_parse_iff :
    (raw : String) (r : OrgRole) → (OrgRole.parse raw ≡ ok r) ↔ (raw ≡ OrgRole.as_str r)
OrgRole_parse_iff raw r = (OrgRole_parse_sound raw r, λ e. rw e (OrgRole_parse-as_str r))

AgentKind_parse-as_str : (k : AgentKind) → AgentKind.parse (AgentKind.as_str k) ≡ ok k
unfolding AgentKind.parse AgentKind.as_str
AgentKind_parse-as_str AgentKind.cp_tool = refl
AgentKind_parse-as_str _ = refl

AgentKind_parse_sound :
    (raw : String) (k : AgentKind) → AgentKind.parse raw ≡ ok k → raw ≡ AgentKind.as_str k
unfolding AgentKind.parse AgentKind.as_str
AgentKind_parse_sound raw k h =
    ground (arith, eq_iff raw "cp-tool", eq_iff raw "gateway-tool", eq_iff raw "api-consumer")

-- A string parses as an agent kind exactly when it is that kind's wire string.
pub AgentKind_parse_iff :
    (raw : String) (k : AgentKind) → (AgentKind.parse raw ≡ ok k) ↔ (raw ≡ AgentKind.as_str k)
AgentKind_parse_iff raw k = (AgentKind_parse_sound raw k, λ e. rw e (AgentKind_parse-as_str k))
