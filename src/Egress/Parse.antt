-- ===== src/Egress/Parse.antt =====
-- The text of a range (crates/fp-core/src/services/egress_advisory.rs): `Cidr::from_str`. The parsers
-- of the standard library are parameters.
use flowplane.Base.{
  ℕ, ◌≤◌, Option, none, some, Text, chars, leb, split_once, trim, if◌then◌else◌, Bool-cases, inl,
  inr, arith, leb→le,
}
use flowplane.Domain.Error.{
  DomainError, DomainResult, ok, err, invalid_config, new, with_hint, ok_or, ◌>>=◌,
}
use flowplane.Egress.Addr.{IpAddr, Cidr}
use flowplane.Egress.Contains.{width}

abbrev address_error : DomainError
address_error =
    with_hint (new invalid_config "\"{raw}\" is not a valid CIDR or IP address")
      "use e.g. 10.0.0.0/8, 192.0.2.7, or fd00:ec2::254/128"

abbrev prefix_error : DomainError
prefix_error = new invalid_config "\"{raw}\" has an invalid prefix length (max {max})"

-- `filter(|p| *p <= max)`.
abbrev at_most_some : ℕ → Option ℕ → Option ℕ
at_most_some max none = none
at_most_some max (some p) = if leb p max then some p else none

abbrev with_prefix : IpAddr → ℕ → Cidr
with_prefix addr prefix = record { addr = addr; prefix = prefix }

-- The prefix is no longer than the address.
abbrev pub IsBounded : DomainResult Cidr → Type 0
IsBounded (ok c) = c.prefix ≤ width c.addr
IsBounded (err e) = Unit

abbrev prefixed : IpAddr → Option ℕ → DomainResult Cidr
prefixed addr prefix =
    ok_or (at_most_some (width addr) prefix) prefix_error >>= λ p. ok (with_prefix addr p)

prefixed-IsBounded : (addr : IpAddr) (prefix : Option ℕ) → IsBounded (prefixed addr prefix)
prefixed-IsBounded addr none = tt
prefixed-IsBounded addr (some p) = elim (Bool-cases (leb p (width addr))) [
  | inl small ↦ rw small (leb→le p (width addr) small)
  | inr large ↦ rw large tt
]

whole-IsBounded :
    (o : Option IpAddr)
    → IsBounded (ok_or o address_error >>= λ addr. ok (with_prefix addr (width addr)))
whole-IsBounded none = tt
whole-IsBounded (some addr) = ground arith

parsed-IsBounded :
    (o : Option IpAddr) (prefix : Option ℕ)
    → IsBounded (ok_or o address_error >>= λ addr. prefixed addr prefix)
parsed-IsBounded none prefix = tt
parsed-IsBounded (some addr) prefix = prefixed-IsBounded addr prefix

module _ (parse_ip : Text → Option IpAddr) (parse_u8 : Text → Option ℕ) where
  -- The address with the text of its prefix, where there is one.
  abbrev pub from_parts : Text → Option Text → DomainResult Cidr
  from_parts addr_part none =
      ok_or (parse_ip addr_part) address_error >>= λ addr. ok (with_prefix addr (width addr))
  from_parts addr_part (some p) =
      ok_or (parse_ip addr_part) address_error >>= λ addr. prefixed addr (parse_u8 p)

  abbrev from_split : Text → Option (Text × Text) → DomainResult Cidr
  from_split raw none = from_parts raw none
  from_split raw (some (addr_part, p)) = from_parts addr_part (some p)

  unfoldable pub from_str : Text → DomainResult Cidr
  unfolding split_once trim
  from_str raw = from_split (trim raw) (split_once (chars "/") (trim raw))

  from_split-IsBounded : (raw : Text) (o : Option (Text × Text)) → IsBounded (from_split raw o)
  from_split-IsBounded raw none = whole-IsBounded (parse_ip raw)
  from_split-IsBounded raw (some (addr_part, p)) =
      parsed-IsBounded (parse_ip addr_part) (parse_u8 p)

  -- A range that parses has a prefix of at most 32 bits in IPv4 and 128 bits in IPv6.
  pub from_str-IsBounded : (raw : Text) → IsBounded (from_str raw)
  unfolding from_str
  from_str-IsBounded raw = from_split-IsBounded (trim raw) (split_once (chars "/") (trim raw))
