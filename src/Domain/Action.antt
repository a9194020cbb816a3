-- ===== src/Domain/Action.antt =====
-- What a grant permits on a resource (crates/fp-domain/src/authz.rs).
use Prim.Native.String.{String}
use text.Mathlib.Text.{◌==◌ as str_eq}
use flowplane.Base.{
  ℕ, ◌≡◌, refl, ap, ◌↔◌, Bool, true, false, List, [], ◌∷◌, some, Eq, find, get_elem?, nat_eq,
  nat_eq_iff,
}
use flowplane.Domain.Error.{DomainResult, ok_or, validation}

pub data Action : Type 0 where
  read create update delete execute : Action

-- `ALL_ACTIONS`, in the order of the declaration.
abbrev pub all_actions : List Action
all_actions = read ∷ create ∷ update ∷ delete ∷ execute ∷ []

-- The position of a variant, by which the derived equality tells the variants apart.
abbrev pub tag : Action → ℕ
tag read = 0
tag create = 1
tag update = 2
tag delete = 3
tag execute = 4

tag-get_elem? : (r : Action) → get_elem? all_actions (tag r) ≡ some r
tag-get_elem? read = refl
tag-get_elem? create = refl
tag-get_elem? update = refl
tag-get_elem? delete = refl
tag-get_elem? execute = refl

eq_of_tag : (r s : Action) → tag r ≡ tag s → r ≡ s
eq_of_tag r s h = cc (tag-get_elem? r, tag-get_elem? s, ap (get_elem? all_actions) h)

pub tag_eq_iff : (r s : Action) → (nat_eq (tag r) (tag s) ≡ true) ↔ (r ≡ s)
tag_eq_iff r s = (λ h. eq_of_tag r s ((nat_eq_iff _ _).0 h), λ e. (nat_eq_iff _ _).1 (ap tag e))

instance abbrev pub Action-Eq : Eq Action
Action-Eq = record { eq = λ r s. nat_eq (tag r) (tag s); eq_iff = tag_eq_iff }

unfoldable pub as_str : Action → String
as_str read = "read"
as_str create = "create"
as_str update = "update"
as_str delete = "delete"
as_str execute = "execute"

unfoldable pub parse : String → DomainResult Action
unfolding as_str
parse raw =
    ok_or (find (λ r. str_eq (as_str r) raw) all_actions)
      (validation "\"{raw}\" is not a known action")

unfoldable pub is_mutation : Action → Bool
is_mutation read = false
is_mutation _ = true
