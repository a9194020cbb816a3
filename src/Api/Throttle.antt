-- ===== src/Api/Throttle.antt =====
-- The write throttle of crates/fp-api/src/throttle.rs: a window of one minute for each tenant.
-- The mutex makes the checks a sequence; a check reads the clock in several places, and the readings
-- are an argument, in nanoseconds. `now` is read before the lock is held.
use flowplane.Base.{
  ℕ, ◌+◌, ◌-◌, ◌/◌, ◌%◌, ◌^◌, Bool, true, false, [], ◌++◌, Option, none, some, Text, Dict, lookup,
  insert, retain, length, ltb, leb, chars, if◌then◌else◌, List-Eq, ℕ-Eq,
}
use flowplane.Domain.Error.{DomainError, new, with_hint, with_retry_after, rate_limited}
use flowplane.Domain.Identity.{OrgId, UserId}
use flowplane.Authz.Principal.{PrincipalCtx, user, agent}

pub record Window : Type 0 where
  pub start : ℕ
  pub count : ℕ

pub record WriteThrottle : Type 0 where
  pub limit_per_minute : ℕ
  pub windows : Dict Text Window

pub record Readings : Type 0 where
  pub now : ℕ
  pub cleanup : Text → ℕ
  pub reset : ℕ
  pub retry : ℕ

-- `Result<(), u32>`.
pub data Answer : Type 0 where
  passed : Answer
  retry_after : ℕ → Answer

unfoldable pub new_throttle : ℕ → WriteThrottle
new_throttle limit = record { limit_per_minute = limit; windows = [] }

-- `start.elapsed().as_secs()`, which is 0 before the start.
unfoldable pub elapsed_secs : ℕ → ℕ → ℕ
elapsed_secs start at = (at - start) / 1_000_000_000

unfoldable pub is_recent : Readings → Text × Window → Bool
is_recent r (key, w) = ltb (elapsed_secs w.start (r.cleanup key)) 120

unfoldable pub clean_up : Readings → Dict Text Window → Dict Text Window
clean_up r windows = if ltb 10_000 (length windows) then retain (is_recent r) windows else windows

unfoldable pub or_insert : ℕ → Option Window → Window
or_insert now none = record { start = now; count = 0 }
or_insert now (some w) = w

unfoldable pub reset_expired : Readings → Window → Window
reset_expired r w =
    if leb 60 (elapsed_secs w.start r.reset) then record { start = r.now; count = 0 } else w

-- `60u32.saturating_sub(elapsed as u32).max(1)`.
unfoldable pub seconds_left : Window → ℕ → ℕ
seconds_left w at =
    let left = 60 - elapsed_secs w.start at % 2 ^ 32 in if ltb left 1 then 1 else left

unfoldable pub admit : ℕ → ℕ → Window → Window × Answer
admit limit at w =
    if leb limit w.count
    then (w, retry_after (seconds_left w at))
    else (record w { count = (w.count + 1) % 2 ^ 32 }, passed)

unfoldable pub check : WriteThrottle → Text → Readings → WriteThrottle × Answer
check t key r =
    let windows = clean_up r t.windows in
    let entry = reset_expired r (or_insert r.now (lookup key windows)) in
    let (w, answer) = admit t.limit_per_minute r.retry entry in
    (record t { windows = insert key w windows }, answer)

-- The methods that the code tells apart.
pub data Method : Type 0 where
  post put patch delete : Method
  other : Text → Method

unfoldable pub is_write : Method → Bool
is_write post = true
is_write put = true
is_write patch = true
is_write delete = true
is_write (other name) = false

unfoldable pub throttled_error : ℕ → DomainError
throttled_error seconds =
    with_retry_after
      (with_hint (new rate_limited "per-tenant write rate limit exceeded")
        "space out mutating requests; reads are not limited")
      seconds

-- The middleware. The texts of ids and the handlers after it are arguments.
module _ (show_org : OrgId → Text) (show_user : UserId → Text) where
  unfoldable pub throttle_key : Option PrincipalCtx → Text
  throttle_key none = chars "anonymous"
  throttle_key (some (user u)) = elim u.org [
    | none ↦ chars "user:" ++ show_user u.user_id
    | some (org_id, role) ↦ chars "org:" ++ show_org org_id
  ]
  throttle_key (some (agent a)) = chars "org:" ++ show_org a.org_id

  module _ {R : Type 0} (next : Unit {0} → R) (error_response : DomainError → R) where
    unfoldable pub respond : Answer → R
    respond passed = next tt
    respond (retry_after seconds) = error_response (throttled_error seconds)

    unfoldable pub tenant_write_throttle :
        WriteThrottle → Method → Option PrincipalCtx → Readings → WriteThrottle × R
    tenant_write_throttle t method principal r =
        if is_write method
        then (let (after, answer) = check t (throttle_key principal) r in (after, respond answer))
        else (t, next tt)
