-- ===== src/Egress/Hosts.antt =====
-- Which hosts pass the advisory, and which mutations.
use Prim.Native.String.{String}
use flowplane.Base.{
  ◌≡◌, ◌↔◌, refl, sym, ap, ◌∙◌, Bool, true, false, List, [], ◌∷◌, Option, none, some, Text, All,
  All-map, if◌then◌else◌,
}
use flowplane.Egress.Addr.{IpAddr}
use flowplane.Egress.Policy.{
  EgressAdvisoryPolicy, denial_reason, Rejection, rejected, check_ip, first_denied, check_answers,
  AuditEntry, AuditLog, audited, check_enabled, check_host, enforce_from, enforce_hosts,
}
use flowplane.Egress.Denied.{or_else-none}

rejected_iff :
    (host : Text) (ip : IpAddr) (resolved : List IpAddr) (o : Option String)
    → (rejected host ip resolved o ≡ none) ↔ (o ≡ none)
rejected_iff host ip resolved none = (λ h. refl, λ h. refl)
rejected_iff host ip resolved (some reason) = (λ h. cc, λ h. cc)

first_denied_iff :
    (policy : EgressAdvisoryPolicy) (host : Text) (resolved ips : List IpAddr)
    → (first_denied policy host resolved ips ≡ none)
      ↔ All (λ ip. denial_reason policy ip ≡ none) ips
unfolding first_denied
first_denied_iff policy host resolved [] = (λ h. tt, λ h. refl)
first_denied_iff policy host resolved (ip ∷ ips) =
    let (f, g) = first_denied_iff policy host resolved ips in
    let (h, i) = rejected_iff host ip resolved (denial_reason policy ip) in
    let (out, back) =
      or_else-none (rejected host ip resolved (denial_reason policy ip))
        (first_denied policy host resolved ips) in
    (λ e. let (now, later) = out e in (h now, f later), λ (now, later). back (i now, g later))

-- The answers are there, and a connection to none of them reaches what is denied.
abbrev pub AreAnswers : EgressAdvisoryPolicy → Option (List IpAddr) → Type 0
AreAnswers policy none = ⊥
AreAnswers policy (some []) = ⊥
AreAnswers policy (some (ip ∷ ips)) = All (λ ip. denial_reason policy ip ≡ none) (ip ∷ ips)

answers_iff :
    (policy : EgressAdvisoryPolicy) (host : Text) (answers : Option (List IpAddr))
    → (check_answers policy host answers ≡ none) ↔ AreAnswers policy answers
answers_iff policy host none = (λ h. cc, λ h. absurd h)
answers_iff policy host (some []) = (λ h. cc, λ h. absurd h)
answers_iff policy host (some (ip ∷ ips)) = first_denied_iff policy host (ip ∷ ips) (ip ∷ ips)

if_on {ℓ} : {A : Type ℓ} (b : Bool) (x y : A) → b ≡ true → (if b then x else y) ≡ x
if_on true x y h = refl
if_on false x y h = cc

module _ {ℓ} {P : Type ℓ} {o : Option Rejection} where
  when_on :
      (b : Bool) → (b ≡ true → (o ≡ none) ↔ P) → ((if b then o else none) ≡ none) ↔ (b ≡ true → P)
  when_on true h = let (f, g) = h refl in (λ e _. f e, λ k. g (k refl))
  when_on false h = (λ e off. cc, λ k. refl)

module _ (parse_ip : Text → Option IpAddr) (lookup_host : Text → Option (List IpAddr)) where
  -- What the host stands for: its own address, or the answers of the resolver.
  abbrev pub Passes : EgressAdvisoryPolicy → Text → Option IpAddr → Type 0
  Passes policy host (some ip) = denial_reason policy ip ≡ none
  Passes policy host none = AreAnswers policy (lookup_host host)

  enabled_iff :
      (policy : EgressAdvisoryPolicy) (host : Text) (literal : Option IpAddr)
      → policy.enabled ≡ true
      → (check_enabled parse_ip lookup_host policy host literal ≡ none) ↔ Passes policy host literal
  unfolding check_enabled check_ip
  enabled_iff policy host (some ip) on =
      rw on (rejected_iff host ip (ip ∷ []) (denial_reason policy ip))
  enabled_iff policy host none on = answers_iff policy host (lookup_host host)

  -- A host passes exactly when the advisory is off or what the host stands for is allowed: the address
  -- it spells, or else every answer of the resolver, of which there is at least one.
  pub check_host_iff :
      (policy : EgressAdvisoryPolicy) (host : Text)
      → (check_host parse_ip lookup_host policy host ≡ none)
        ↔ (policy.enabled ≡ true → Passes policy host (parse_ip host))
  unfolding check_host
  check_host_iff policy host =
      when_on policy.enabled (λ on. enabled_iff policy host (parse_ip host) on)

  module _ (insert_ok : AuditEntry → Bool) (policy : EgressAdvisoryPolicy)
      (mutation resource : Text) (log : AuditLog) where
    audited-none :
        (o : Option Rejection) (later : Option Rejection × AuditLog)
        → ((audited insert_ok mutation resource o log later).0 ≡ none)
          ↔ ((o ≡ none) × (later.0 ≡ none))
    unfolding audited
    audited-none none later = (λ h. (refl, h), λ (h, k). k)
    audited-none (some rejection) later = (λ h. cc, λ (h, k). cc)

    enforce_from_iff :
        (hosts : List Text)
        → ((enforce_from parse_ip lookup_host insert_ok policy mutation resource hosts log).0
            ≡ none)
          ↔ All (λ host. check_host parse_ip lookup_host policy host ≡ none) hosts
    unfolding enforce_from
    enforce_from_iff [] = (λ h. tt, λ h. refl)
    enforce_from_iff (host ∷ hosts) =
        let (f, g) = enforce_from_iff hosts in
        let (out, back) =
          audited-none (check_host parse_ip lookup_host policy host)
            (enforce_from parse_ip lookup_host insert_ok policy mutation resource hosts log) in
        (λ e. let (now, later) = out e in (now, f later), λ (now, later). back (now, g later))

    -- With the advisory on, a mutation passes exactly when each of its hosts does.
    pub enforce_hosts_iff :
        (hosts : List Text)
        → policy.enabled ≡ true
        → ((enforce_hosts parse_ip lookup_host insert_ok policy mutation resource hosts log).0
            ≡ none)
          ↔ All (λ host. Passes policy host (parse_ip host)) hosts
    unfolding enforce_hosts
    enforce_hosts_iff hosts on =
        let (f, g) = enforce_from_iff hosts in
        let same =
          ap (λ r. r.0)
            (if_on policy.enabled
              (enforce_from parse_ip lookup_host insert_ok policy mutation resource hosts log)
              (none, log) on) in
        (
          λ e. All-map hosts (λ host h. (check_host_iff policy host).0 h on) (f (sym same ∙ e)),
          λ a. same ∙ g (All-map hosts (λ host h. (check_host_iff policy host).1 (λ _. h)) a),
        )
