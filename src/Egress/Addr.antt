-- ===== src/Egress/Addr.antt =====
-- Addresses, address ranges and the protected destinations
-- (crates/fp-core/src/services/egress_advisory.rs). The methods of the standard library on addresses
-- are written out from their documentation.
use Prim.Native.Nat.{bit_and}
use Prim.Native.String.{String}
use flowplane.Base.{
  ℕ, ◌+◌, ◌-◌, ◌*◌, ◌/◌, ◌%◌, ◌^◌, Bool, false, ◌&&◌, ◌||◌, List, [], ◌∷◌, Option, none, some, leb,
  nat_eq, list_eq, if◌then◌else◌,
}

-- The octets of an IPv4 address, and the segments of an IPv6 address.
pub record Ipv4Addr : Type 0 where
  pub o₀ : ℕ
  pub o₁ : ℕ
  pub o₂ : ℕ
  pub o₃ : ℕ

pub record Ipv6Addr : Type 0 where
  pub s₀ : ℕ
  pub s₁ : ℕ
  pub s₂ : ℕ
  pub s₃ : ℕ
  pub s₄ : ℕ
  pub s₅ : ℕ
  pub s₆ : ℕ
  pub s₇ : ℕ

pub data IpAddr : Type 0 where
  v4 : Ipv4Addr → IpAddr
  v6 : Ipv6Addr → IpAddr

abbrev pub octets : Ipv4Addr → List ℕ
octets a = a.o₀ ∷ a.o₁ ∷ a.o₂ ∷ a.o₃ ∷ []

abbrev pub segments : Ipv6Addr → List ℕ
segments a = a.s₀ ∷ a.s₁ ∷ a.s₂ ∷ a.s₃ ∷ a.s₄ ∷ a.s₅ ∷ a.s₆ ∷ a.s₇ ∷ []

-- `==` on addresses.
abbrev pub ip_eq : IpAddr → IpAddr → Bool
ip_eq (v4 a) (v4 b) = list_eq nat_eq (octets a) (octets b)
ip_eq (v6 a) (v6 b) = list_eq nat_eq (segments a) (segments b)
ip_eq _ _ = false

-- `u32::from` and `u128::from`: the digits of an address, most significant first.
unfoldable pub from_digits : ℕ → ℕ → List ℕ → ℕ
from_digits base acc [] = acc
from_digits base acc (d ∷ ds) = from_digits base (acc * base + d) ds

unfoldable pub u32_from : Ipv4Addr → ℕ
unfolding from_digits
u32_from a = from_digits 256 0 (octets a)

unfoldable pub u128_from : Ipv6Addr → ℕ
unfolding from_digits
u128_from a = from_digits 65_536 0 (segments a)

pub record Cidr : Type 0 where
  pub addr : IpAddr
  pub prefix : ℕ

-- `MAX << (width - prefix)` on unsigned numbers of that width, and 0 for the empty prefix.
abbrev pub mask : ℕ → ℕ → ℕ
mask width prefix =
    if nat_eq prefix 0 then 0 else (2 ^ width - 1) * 2 ^ (width - prefix) % 2 ^ width

abbrev pub same_masked : ℕ → ℕ → ℕ → ℕ → Bool
same_masked width prefix net ip =
    nat_eq (bit_and net (mask width prefix)) (bit_and ip (mask width prefix))

unfoldable pub contains : Cidr → IpAddr → Bool
unfolding u32_from u128_from
contains cidr ip = elim cidr.addr [
  | v4 net ↦ elim ip [
    | v4 a ↦ same_masked 32 cidr.prefix (u32_from net) (u32_from a)
    | v6 a ↦ false
  ]
  | v6 net ↦ elim ip [
    | v4 a ↦ false
    | v6 a ↦ same_masked 128 cidr.prefix (u128_from net) (u128_from a)
  ]
]

abbrev pub ipv4 : ℕ → ℕ → ℕ → ℕ → Ipv4Addr
ipv4 a b c d = record { o₀ = a; o₁ = b; o₂ = c; o₃ = d }

abbrev pub ipv6 : ℕ → ℕ → ℕ → ℕ → ℕ → ℕ → ℕ → ℕ → Ipv6Addr
ipv6 a b c d e f g h = record { s₀ = a; s₁ = b; s₂ = c; s₃ = d; s₄ = e; s₅ = f; s₆ = g; s₇ = h }

-- The address that two segments hold: `(s >> 8) as u8` and `s as u8` of each.
abbrev pub ipv4_of : ℕ → ℕ → Ipv4Addr
ipv4_of high low = ipv4 (high / 256 % 256) (high % 256) (low / 256 % 256) (low % 256)

-- `Ipv6Addr::to_ipv4_mapped`: `::ffff:a.b.c.d`.
abbrev pub is_mapped : Ipv6Addr → Bool
is_mapped a =
    nat_eq a.s₀ 0
    && nat_eq a.s₁ 0
    && nat_eq a.s₂ 0
    && nat_eq a.s₃ 0
    && nat_eq a.s₄ 0
    && nat_eq a.s₅ 0xffff

unfoldable pub canonical_ip : IpAddr → IpAddr
canonical_ip (v4 a) = v4 a
canonical_ip (v6 a) = if is_mapped a then v4 (ipv4_of a.s₆ a.s₇) else v6 a

-- The IPv4 destination in a 6to4 or a NAT64 address.
abbrev pub is_nat64 : Ipv6Addr → Bool
is_nat64 a =
    nat_eq a.s₀ 0x64
    && nat_eq a.s₁ 0xff9b
    && nat_eq a.s₂ 0
    && nat_eq a.s₃ 0
    && nat_eq a.s₄ 0
    && nat_eq a.s₅ 0

unfoldable pub embedded_ipv4 : Ipv6Addr → Option Ipv4Addr
embedded_ipv4 a =
    if nat_eq a.s₀ 0x2002
    then some (ipv4_of a.s₁ a.s₂)
    else if is_nat64 a
    then some (ipv4_of a.s₆ a.s₇)
    else none

abbrev pub is_ipv6_link_local : Ipv6Addr → Bool
is_ipv6_link_local a = nat_eq (bit_and a.s₀ 0xffc0) 0xfe80

abbrev pub is_v4 : Ipv4Addr → Ipv4Addr → Bool
is_v4 a b = list_eq nat_eq (octets a) (octets b)

abbrev pub is_v6 : Ipv6Addr → Ipv6Addr → Bool
is_v6 a b = list_eq nat_eq (segments a) (segments b)

unfoldable pub builtin_denial_v4 : Ipv4Addr → Option String
builtin_denial_v4 a =
    if is_v4 a (ipv4 169 254 169 254)
      || is_v4 a (ipv4 169 254 170 2)
      || is_v4 a (ipv4 168 63 129 16)
    then some "metadata_endpoint"
    else if nat_eq a.o₀ 127
    then some "loopback"
    else if nat_eq a.o₀ 169 && nat_eq a.o₁ 254
    then some "link_local"
    else if is_v4 a (ipv4 0 0 0 0) || leb 224 a.o₀ && leb a.o₀ 239 || is_v4 a (ipv4 255 255 255 255)
    then some "special_range"
    else none

unfoldable pub builtin_denial_v6 : Ipv6Addr → Option String
builtin_denial_v6 a =
    if is_v6 a (ipv6 0xfd00 0x0ec2 0 0 0 0 0 0x0254)
    then some "metadata_endpoint"
    else if is_v6 a (ipv6 0 0 0 0 0 0 0 1)
    then some "loopback"
    else if is_ipv6_link_local a
    then some "link_local"
    else if is_v6 a (ipv6 0 0 0 0 0 0 0 0) || nat_eq (a.s₀ / 256) 0xff
    then some "special_range"
    else none

unfoldable pub builtin_denial : IpAddr → Option String
unfolding builtin_denial_v4 builtin_denial_v6
builtin_denial (v4 a) = builtin_denial_v4 a
builtin_denial (v6 a) = builtin_denial_v6 a

abbrev pub or_else {ℓ} : {A : Type ℓ} → Option A → Option A → Option A
or_else (some a) later = some a
or_else none later = later

-- The recursive call of `protected_destination` is on an IPv4 address, which is its own canonical form
-- and embeds no other.
unfoldable pub embedded_denial : IpAddr → Option String
unfolding embedded_ipv4 builtin_denial
embedded_denial (v4 a) = none
embedded_denial (v6 a) = elim (embedded_ipv4 a) [ none ↦ none | some b ↦ builtin_denial (v4 b) ]

unfoldable pub protected_destination : IpAddr → Option String
unfolding canonical_ip builtin_denial embedded_denial
protected_destination ip =
    or_else (builtin_denial (canonical_ip ip)) (embedded_denial (canonical_ip ip))

unfoldable pub embedded_candidate : IpAddr → List IpAddr
unfolding embedded_ipv4
embedded_candidate (v4 a) = []
embedded_candidate (v6 a) = elim (embedded_ipv4 a) [ none ↦ [] | some b ↦ v4 b ∷ [] ]

unfoldable pub delivery_candidates : IpAddr → List IpAddr
unfolding canonical_ip embedded_candidate
delivery_candidates ip = canonical_ip ip ∷ embedded_candidate (canonical_ip ip)
