-- ===== src/Egress/Contains.antt =====
-- Which addresses a range holds.
use flowplane.Base.{ℕ, ◌-◌, ◌≤◌, ◌<◌, ◌^◌, ◌≡◌, ◌↔◌, true, All, arith}
use flowplane.Egress.Addr.{
  IpAddr, v4, v6, Ipv4Addr, Ipv6Addr, octets, segments, u32_from, u128_from, contains,
}
use flowplane.Egress.Mask.{leading, same_masked_iff, mask_v4, mask_v6}

-- The octets are bytes and the segments 16-bit words.
abbrev pub IsAddr : IpAddr → Type 0
IsAddr (v4 a) = All (λ o. o < 256) (octets a)
IsAddr (v6 a) = All (λ s. s < 65_536) (segments a)

u32_bound : (a : Ipv4Addr) → IsAddr (v4 a) → u32_from a < 2 ^ 32
unfolding u32_from
u32_bound a (h, (i, (j, (k, _)))) = omega arith

u128_bound : (a : Ipv6Addr) → IsAddr (v6 a) → u128_from a < 2 ^ 128
unfolding u128_from
u128_bound a (h, (i, (j, (k, (l, (m, (n, (o, _)))))))) = omega arith

-- The family of the range, and as many leading bits as its prefix counts.
abbrev pub Leads : IpAddr → ℕ → IpAddr → Type 0
Leads (v4 net) prefix (v4 a) =
    leading (32 - prefix) (u32_from net) ≡ leading (32 - prefix) (u32_from a)
Leads (v6 net) prefix (v6 a) =
    leading (128 - prefix) (u128_from net) ≡ leading (128 - prefix) (u128_from a)
Leads (v4 net) prefix (v6 a) = ⊥
Leads (v6 net) prefix (v4 a) = ⊥

abbrev pub width : IpAddr → ℕ
width (v4 a) = 32
width (v6 a) = 128

-- A range holds exactly the addresses of its own family that agree with its address on the leading bits
-- that its prefix counts.
pub contains_iff :
    (addr : IpAddr) (prefix : ℕ) (ip : IpAddr)
    → prefix ≤ width addr
    → IsAddr addr
    → IsAddr ip
    → (contains (record { addr = addr; prefix = prefix }) ip ≡ true) ↔ Leads addr prefix ip
unfolding contains
contains_iff (v4 net) prefix (v4 a) h n b =
    same_masked_iff 32 prefix (u32_from net) (u32_from a) mask_v4 h (u32_bound net n)
      (u32_bound a b)
contains_iff (v6 net) prefix (v6 a) h n b =
    same_masked_iff 128 prefix (u128_from net) (u128_from a) mask_v6 h (u128_bound net n)
      (u128_bound a b)
contains_iff (v4 net) prefix (v6 a) h n b = (λ e. cc, λ e. absurd e)
contains_iff (v6 net) prefix (v4 a) h n b = (λ e. cc, λ e. absurd e)
