-- ===== src/Xds/Resource.antt =====
-- Encoded resources (crates/fp-xds/src/snapshot.rs). `Any` is the protobuf message: a type url and
-- the encoded bytes.
use flowplane.Base.{
  ℕ, ◌≡◌, ◌↔◌, Bool, true, ◌&&◌, List, Text, Eq, List-Eq, ℕ-Eq, ◌==◌, list_eq, list_eq_iff, arith,
}
use flowplane.Base.SortedMap.{text_eq_iff}

pub record Any : Type 0 where
  pub type_url : Text
  pub value : List ℕ

pub record NamedResource : Type 0 where
  pub name : Text
  pub any : Any

abbrev pub any_eq : Any → Any → Bool
any_eq a b = a.type_url == b.type_url && a.value == b.value

pub any_eq_iff : (a b : Any) → (any_eq a b ≡ true) ↔ (a ≡ b)
any_eq_iff a b = ground (arith, text_eq_iff a.type_url b.type_url, text_eq_iff a.value b.value)

abbrev pub resource_eq : NamedResource → NamedResource → Bool
resource_eq r s = r.name == s.name && any_eq r.any s.any

pub resource_eq_iff : (r s : NamedResource) → (resource_eq r s ≡ true) ↔ (r ≡ s)
resource_eq_iff r s = ground (arith, text_eq_iff r.name s.name, any_eq_iff r.any s.any)

-- The derived `PartialEq`.
instance abbrev pub NamedResource-Eq : Eq NamedResource
NamedResource-Eq = record { eq = resource_eq; eq_iff = resource_eq_iff }

abbrev pub resources_eq : List NamedResource → List NamedResource → Bool
resources_eq = list_eq resource_eq

pub resources_eq_iff : (rs ss : List NamedResource) → (resources_eq rs ss ≡ true) ↔ (rs ≡ ss)
resources_eq_iff = list_eq_iff NamedResource-Eq
