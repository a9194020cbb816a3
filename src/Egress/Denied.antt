-- ===== src/Egress/Denied.antt =====
-- What the advisory lets pass: destinations of which no delivery candidate is protected.
use Prim.Native.String.{String}
use flowplane.Base.{
  ◌≡◌, ◌↔◌, refl, sym, ap, ◌∙◌, true, false, List, [], ◌∷◌, Option, none, some, All, any_none,
  Bool-cases, Option-cases, inl, inr, arith,
}
use flowplane.Domain.Checks.{◌&◌}
use flowplane.Egress.Addr.{
  IpAddr, v4, v6, Ipv6Addr, ip_eq, contains, is_mapped, ipv4_of, canonical_ip, embedded_ipv4,
  builtin_denial, embedded_denial, protected_destination, embedded_candidate, delivery_candidates,
  or_else,
}
use flowplane.Egress.Policy.{EgressAdvisoryPolicy, candidate_reason, first_reason, denial_reason}

pub or_else-none {ℓ} :
    {A : Type ℓ} (o p : Option A) → (or_else o p ≡ none) ↔ ((o ≡ none) × (p ≡ none))
or_else-none none p = (λ h. (refl, h), λ (h, k). k)
or_else-none (some a) p = (λ h. cc, λ (h, k). cc)

-- The canonical form of an address is its own.
canonical_ip_idempotent : (ip : IpAddr) → canonical_ip (canonical_ip ip) ≡ canonical_ip ip
unfolding canonical_ip
canonical_ip_idempotent (v4 a) = refl
canonical_ip_idempotent (v6 a) = elim (Bool-cases (is_mapped a)) [
  | inl h ↦ rw (h) refl
  | inr h ↦ rw (h, h) refl
]

-- What the code denies everywhere, and what the policy of the operator adds.
abbrev pub IsAllowed : EgressAdvisoryPolicy → IpAddr → Type 0
IsAllowed policy candidate =
    (builtin_denial candidate ≡ none)
    & All (λ a. ip_eq a candidate ≡ false) policy.denied_addrs
    & All (λ c. contains c candidate ≡ false) policy.denied_cidrs

candidate_reason_iff :
    (policy : EgressAdvisoryPolicy) (ip : IpAddr)
    → (candidate_reason policy ip ≡ none) ↔ (
        All (λ a. ip_eq a ip ≡ false) policy.denied_addrs
        × All (λ c. contains c ip ≡ false) policy.denied_cidrs)
unfolding candidate_reason
candidate_reason_iff policy ip =
    let (f, g) = any_none (λ a. ip_eq a ip) policy.denied_addrs in
    let (h, i) = any_none (λ c. contains c ip) policy.denied_cidrs in
    (
      λ e. (f (ground arith), h (ground arith)),
      λ (a, b). let p = g a in let q = i b in rw (p, q) refl,
    )

embedded_iff :
    (ip : IpAddr)
    → (embedded_denial ip ≡ none) ↔ All (λ c. builtin_denial c ≡ none) (embedded_candidate ip)
unfolding embedded_denial embedded_candidate
embedded_iff (v4 a) = (λ h. tt, λ h. refl)
embedded_iff (v6 a) = elim (Option-cases (embedded_ipv4 a)) [
  | inl e ↦ rw (embedded_denial, embedded_candidate, e) ((λ h. tt, λ h. refl))
  | inr (b, e) ↦ rw (embedded_denial, embedded_candidate, e) ((λ h. (h, tt), λ (h, _). h))
]

first_reason_iff :
    (policy : EgressAdvisoryPolicy) (ips : List IpAddr)
    → (All (λ c. builtin_denial c ≡ none) ips × (first_reason policy ips ≡ none))
      ↔ All (IsAllowed policy) ips
unfolding first_reason
first_reason_iff policy [] = (λ h. tt, λ h. (tt, refl))
first_reason_iff policy (ip ∷ ips) =
    let (f, g) = first_reason_iff policy ips in
    let (h, i) = candidate_reason_iff policy ip in
    let (out, back) = or_else-none (candidate_reason policy ip) (first_reason policy ips) in
    (
      λ ((b, bs), e). let (now, later) = out e in ((b, h now), f (bs, later)),
      λ ((b, here), rest). let (bs, later) = g rest in ((b, bs), back (i here, later)),
    )

abbrev protected : IpAddr → Option String
protected c = or_else (builtin_denial c) (embedded_denial c)

-- The canonical form is taken once.
denial_reason-eq :
    (policy : EgressAdvisoryPolicy) (ip : IpAddr)
    → denial_reason policy ip
      ≡ or_else
          (protected (canonical_ip ip))
          (first_reason policy (canonical_ip ip ∷ embedded_candidate (canonical_ip ip)))
unfolding denial_reason protected_destination delivery_candidates
denial_reason-eq policy ip =
    ap (λ c. or_else (protected c) (first_reason policy (c ∷ embedded_candidate c)))
      (canonical_ip_idempotent ip)

-- An address is allowed exactly when no address that a connection to it can reach, its canonical form
-- and the IPv4 address it embeds, is a protected destination, a denied address or in a denied range.
pub denial_reason_iff :
    (policy : EgressAdvisoryPolicy) (ip : IpAddr)
    → (denial_reason policy ip ≡ none) ↔ All (IsAllowed policy) (delivery_candidates ip)
unfolding denial_reason protected_destination delivery_candidates
denial_reason_iff policy ip =
    let c = canonical_ip ip in
    let ips = c ∷ embedded_candidate c in
    let opened = denial_reason-eq policy ip in
    let (out, back) = or_else-none (protected c) (first_reason policy ips) in
    let (apart, together) = or_else-none (builtin_denial c) (embedded_denial c) in
    let (f, g) = embedded_iff c in
    let (h, i) = first_reason_iff policy ips in
    (
      λ e. let (p, r) = out (sym opened ∙ e) in let (b, m) = apart p in h ((b, f m), r),
      λ allowed. let ((b, bs), r) = i allowed in opened ∙ back (together (b, g bs), r),
    )

-- An IPv4 address written as IPv6 is judged as the IPv4 address.
pub denial_reason-mapped :
    (policy : EgressAdvisoryPolicy) (a : Ipv6Addr)
    → is_mapped a ≡ true
    → denial_reason policy (v6 a) ≡ denial_reason policy (v4 (ipv4_of a.s₆ a.s₇))
unfolding denial_reason canonical_ip
denial_reason-mapped policy a h = rw h refl
