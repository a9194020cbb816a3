-- ===== src/Egress/Policy.antt =====
-- The advisory policy (crates/fp-core/src/services/egress_advisory.rs). The address parser of the
-- standard library and the resolver are parameters: `parse_ip` is `parse::<IpAddr>`, and `lookup_host`
-- gives the addresses a name resolves to at the time of the call, or none on failure.
use Prim.Native.String.{String}
use flowplane.Base.{
  ℕ, ◌+◌, ◌++◌, Bool, List, [], ◌∷◌, Option, none, some, Text, any, map, if◌then◌else◌,
}
use flowplane.Domain.Error.{DomainError, validation, with_details}
use flowplane.Egress.Addr.{
  IpAddr, ip_eq, Cidr, contains, canonical_ip, protected_destination, delivery_candidates, or_else,
}

pub record EgressAdvisoryPolicy : Type 0 where
  pub enabled : Bool
  pub denied_addrs : List IpAddr
  pub denied_cidrs : List Cidr

unfoldable pub new : Bool → List IpAddr → List Cidr → EgressAdvisoryPolicy
unfolding canonical_ip
new enabled denied_addrs denied_cidrs = record {
  enabled = enabled;
  denied_addrs = map canonical_ip denied_addrs;
  denied_cidrs = denied_cidrs;
}

-- One round of the loop over the candidates, and the loop.
unfoldable pub candidate_reason : EgressAdvisoryPolicy → IpAddr → Option String
unfolding contains
candidate_reason policy candidate =
    if any (λ a. ip_eq a candidate) policy.denied_addrs
    then some "infra_address"
    else if any (λ c. contains c candidate) policy.denied_cidrs
    then some "denied_cidr"
    else none

unfoldable pub first_reason : EgressAdvisoryPolicy → List IpAddr → Option String
unfolding candidate_reason
first_reason policy [] = none
first_reason policy (candidate ∷ candidates) =
    or_else (candidate_reason policy candidate) (first_reason policy candidates)

unfoldable pub denial_reason : EgressAdvisoryPolicy → IpAddr → Option String
unfolding first_reason protected_destination delivery_candidates
denial_reason policy ip =
    or_else (protected_destination (canonical_ip ip))
      (first_reason policy (delivery_candidates (canonical_ip ip)))

-- Why a host is rejected, with the evidence that the details of the error carry: all the addresses the
-- host resolved to.
pub data Rejection : Type 0 where
  denied : (host : Text) (ip : IpAddr) (reason : String) (resolved : List IpAddr) → Rejection
  did_not_resolve : (host : Text) → Rejection
  no_addresses : (host : Text) → Rejection

-- The error that is returned, without the texts of hosts and addresses in it.
abbrev pub to_error : Rejection → DomainError
to_error (denied host ip reason resolved) =
    with_details
      (validation
        "upstream host \"{host}\" resolves to a protected destination ({ip}: {reason}); tenant upstreams may not target cloud metadata, loopback, or Flowplane infrastructure addresses")
      (("class", "egress_advisory_denied") ∷ ("reason", reason) ∷ [])
to_error (did_not_resolve host) =
    with_details
      (validation
        "upstream host \"{host}\" did not resolve ({error}); the egress advisory rejects hosts it cannot resolve")
      (("class", "egress_advisory_denied") ∷ ("reason", "resolution_failed") ∷ [])
to_error (no_addresses host) =
    with_details
      (validation
        "upstream host \"{host}\" resolved to no addresses; the egress advisory rejects hosts it cannot resolve")
      (("class", "egress_advisory_denied") ∷ ("reason", "resolution_failed") ∷ [])

abbrev pub rejected : Text → IpAddr → List IpAddr → Option String → Option Rejection
rejected host ip resolved none = none
rejected host ip resolved (some reason) = some (denied host ip reason resolved)

-- `Ok(())` is none.
unfoldable pub check_ip : EgressAdvisoryPolicy → Text → IpAddr → Option Rejection
unfolding denial_reason
check_ip policy host ip =
    if policy.enabled then rejected host ip (ip ∷ []) (denial_reason policy ip) else none

-- `find_map` over the answers: the first that is denied rejects.
unfoldable pub first_denied :
    EgressAdvisoryPolicy → Text → List IpAddr → List IpAddr → Option Rejection
unfolding denial_reason
first_denied policy host resolved [] = none
first_denied policy host resolved (ip ∷ ips) =
    or_else (rejected host ip resolved (denial_reason policy ip))
      (first_denied policy host resolved ips)

abbrev pub check_answers : EgressAdvisoryPolicy → Text → Option (List IpAddr) → Option Rejection
check_answers policy host none = some (did_not_resolve host)
check_answers policy host (some []) = some (no_addresses host)
check_answers policy host (some (ip ∷ ips)) = first_denied policy host (ip ∷ ips) (ip ∷ ips)

-- The rejection audit record: the resource and the mutation path with the rejection.
pub record AuditEntry : Type 0 where
  pub resource : Text
  pub mutation : Text
  pub rejection : Rejection

-- The rows of the audit log, and the counter of failed writes (`fp_audit_write_failures_total`).
pub record AuditLog : Type 0 where
  pub rows : List AuditEntry
  pub failures : ℕ

-- `record_best_effort`: an insert that fails is counted, and the caller goes on. Whether the database
-- takes a row is an argument.
unfoldable pub record_best_effort : (AuditEntry → Bool) → AuditEntry → AuditLog → AuditLog
record_best_effort insert_ok entry log =
    if insert_ok entry
    then record log { rows = log.rows ++ entry ∷ [] }
    else record log { failures = log.failures + 1 }

abbrev pub entry_of : Text → Text → Rejection → AuditEntry
entry_of mutation resource rejection = record {
  resource = resource;
  mutation = mutation;
  rejection = rejection;
}

-- What the loop over the hosts does with the check of one host: a rejection ends it, and is recorded.
unfoldable pub audited :
    (AuditEntry → Bool)
    → Text
    → Text
    → Option Rejection
    → AuditLog
    → Option Rejection × AuditLog
    → Option Rejection × AuditLog
audited insert_ok mutation resource none log later = later
audited insert_ok mutation resource (some rejection) log later =
    (some rejection, record_best_effort insert_ok (entry_of mutation resource rejection) log)

module _ (parse_ip : Text → Option IpAddr) (lookup_host : Text → Option (List IpAddr)) where
  -- A literal is checked as it stands, any other host by its answers.
  unfoldable pub check_enabled : EgressAdvisoryPolicy → Text → Option IpAddr → Option Rejection
  unfolding check_ip first_denied
  check_enabled policy host (some ip) = check_ip policy host ip
  check_enabled policy host none = check_answers policy host (lookup_host host)

  unfoldable pub check_host : EgressAdvisoryPolicy → Text → Option Rejection
  unfolding check_enabled
  check_host policy host =
      if policy.enabled then check_enabled policy host (parse_ip host) else none

  module _ (insert_ok : AuditEntry → Bool) where
    -- The loop over the hosts, with the audit log after it.
    unfoldable pub enforce_from :
        EgressAdvisoryPolicy → Text → Text → List Text → AuditLog → Option Rejection × AuditLog
    unfolding check_host
    enforce_from policy mutation resource [] log = (none, log)
    enforce_from policy mutation resource (host ∷ hosts) log =
        audited insert_ok mutation resource (check_host policy host) log
          (enforce_from policy mutation resource hosts log)

    unfoldable pub enforce_hosts :
        EgressAdvisoryPolicy → Text → Text → List Text → AuditLog → Option Rejection × AuditLog
    unfolding enforce_from
    enforce_hosts policy mutation resource hosts log =
        if policy.enabled then enforce_from policy mutation resource hosts log else (none, log)
