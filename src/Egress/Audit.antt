-- ===== src/Egress/Audit.antt =====
-- What a mutation leaves in the audit log, whether or not the database takes the row.
use flowplane.Base.{
  ◌+◌, ◌≡◌, ◌⊎◌, refl, inl, inr, Bool, true, false, Bool-cases, List, [], ◌∷◌, ◌++◌, Option, none,
  some, Text, if◌then◌else◌,
}
use flowplane.Egress.Addr.{IpAddr}
use flowplane.Egress.Policy.{
  EgressAdvisoryPolicy, Rejection, AuditEntry, AuditLog, record_best_effort, entry_of, audited,
  check_host, enforce_from, enforce_hosts,
}

-- What a mutation leaves in the audit log: nothing if it passes. If it is rejected, one row with the
-- rejection that is returned, or, when the database does not take it, one more failed write.
abbrev pub IsAudited :
    (AuditEntry → Bool) → Text → Text → AuditLog → Option Rejection × AuditLog → Type 0
IsAudited insert_ok mutation resource log (none, left) = left ≡ log
IsAudited insert_ok mutation resource log (some rejection, left) =
    ((insert_ok (entry_of mutation resource rejection) ≡ true)
      × (left.rows ≡ log.rows ++ entry_of mutation resource rejection ∷ [])
      × (left.failures ≡ log.failures))
    ⊎ ((insert_ok (entry_of mutation resource rejection) ≡ false)
        × (left.rows ≡ log.rows)
        × (left.failures ≡ log.failures + 1))

module _ (insert_ok : AuditEntry → Bool) (mutation resource : Text) (log : AuditLog) where
  audited-IsAudited :
      (o : Option Rejection) (later : Option Rejection × AuditLog)
      → IsAudited insert_ok mutation resource log later
      → IsAudited insert_ok mutation resource log (audited insert_ok mutation resource o log later)
  unfolding audited record_best_effort
  audited-IsAudited none later h = h
  audited-IsAudited (some rejection) later h =
      elim (Bool-cases (insert_ok (entry_of mutation resource rejection))) [
        | inl taken ↦ rw taken (inl (refl, refl, refl))
        | inr lost ↦ rw lost (inr (refl, refl, refl))
      ]

  off-IsAudited :
      (b : Bool) (r : Option Rejection × AuditLog)
      → IsAudited insert_ok mutation resource log r
      → IsAudited insert_ok mutation resource log (if b then r else (none, log))
  off-IsAudited true r h = h
  off-IsAudited false r h = refl

  same_answer :
      (other : AuditEntry → Bool) (o : Option Rejection) (l m : Option Rejection × AuditLog)
      → l.0 ≡ m.0
      → (audited insert_ok mutation resource o log l).0
        ≡ (audited other mutation resource o log m).0
  unfolding audited
  same_answer other none l m e = e
  same_answer other (some rejection) l m e = refl

  if_same :
      (b : Bool) (l m : Option Rejection × AuditLog)
      → l.0 ≡ m.0
      → (if b then l else (none, log)).0 ≡ (if b then m else (none, log)).0
  if_same true l m e = e
  if_same false l m e = refl

  module _ (parse_ip : Text → Option IpAddr) (lookup_host : Text → Option (List IpAddr))
      (policy : EgressAdvisoryPolicy) where
    enforce_from-IsAudited :
        (hosts : List Text)
        → IsAudited insert_ok mutation resource log
            (enforce_from parse_ip lookup_host insert_ok policy mutation resource hosts log)
    unfolding enforce_from
    enforce_from-IsAudited [] = refl
    enforce_from-IsAudited (host ∷ hosts) =
        audited-IsAudited (check_host parse_ip lookup_host policy host)
          (enforce_from parse_ip lookup_host insert_ok policy mutation resource hosts log)
          (enforce_from-IsAudited hosts)

    enforce_from-answer :
        (other : AuditEntry → Bool) (hosts : List Text)
        → (enforce_from parse_ip lookup_host insert_ok policy mutation resource hosts log).0
          ≡ (enforce_from parse_ip lookup_host other policy mutation resource hosts log).0
    unfolding enforce_from
    enforce_from-answer other [] = refl
    enforce_from-answer other (host ∷ hosts) =
        same_answer other (check_host parse_ip lookup_host policy host)
          (enforce_from parse_ip lookup_host insert_ok policy mutation resource hosts log)
          (enforce_from parse_ip lookup_host other policy mutation resource hosts log)
          (enforce_from-answer other hosts)

    -- A mutation that passes leaves the audit log as it was. A rejected one leaves one row, with the
    -- rejection that is returned, or, when the database does not take the row, one more failed write
    -- in the counter; and the answer is the same, whatever rows the database takes.
    pub enforce_hosts-IsAudited :
        (other : AuditEntry → Bool) (hosts : List Text)
        → IsAudited insert_ok mutation resource log
            (enforce_hosts parse_ip lookup_host insert_ok policy mutation resource hosts log)
          × ((enforce_hosts parse_ip lookup_host insert_ok policy mutation resource hosts log).0
              ≡ (enforce_hosts parse_ip lookup_host other policy mutation resource hosts log).0)
    unfolding enforce_hosts
    enforce_hosts-IsAudited other hosts = (
      off-IsAudited policy.enabled
          (enforce_from parse_ip lookup_host insert_ok policy mutation resource hosts log)
          (enforce_from-IsAudited hosts),
      if_same policy.enabled
          (enforce_from parse_ip lookup_host insert_ok policy mutation resource hosts log)
          (enforce_from parse_ip lookup_host other policy mutation resource hosts log)
          (enforce_from-answer other hosts),
    )
