-- ===== src/Api/Tests.antt =====
-- Runs of the write throttle.
use flowplane.Base.{
  ℕ, ◌≡◌, refl, arith, List, [], ◌∷◌, Text, min, lookup, insert, retain, List-Eq, ℕ-Eq,
}
use flowplane.Api.Throttle.{
  WriteThrottle, Readings, passed, retry_after, new_throttle, check, clean_up, or_insert,
  reset_expired, seconds_left, admit, elapsed_secs,
}
use flowplane.Api.Alone.{Call, is_of, answers, answers-alone}
use flowplane.Api.Budget.{passes, asked, passes-minute}
use flowplane.Api.Retry.{check-waited}

abbrev at : ℕ → Readings
at n = record { now = n; cleanup = λ key. n; reset = n; retry = n }

abbrev acme : Text
acme = 111 ∷ 58 ∷ 97 ∷ []

abbrev other : Text
other = 111 ∷ 58 ∷ 98 ∷ []

abbrev call : Text → ℕ → Call
call key n = record { key = key; readings = at n }

-- Three writes of one key and one of another, half a second apart, with a limit of two.
abbrev run : List Call
run =
    call acme 500_000_000
    ∷ call other 1_000_000_000
    ∷ call acme 1_500_000_000
    ∷ call acme 2_000_000_000
    ∷ []

acme-answers : answers acme (new_throttle 2) run ≡ (passed ∷ passed ∷ retry_after 59 ∷ [])
unfolding answers new_throttle check clean_up lookup insert or_insert reset_expired admit
    seconds_left elapsed_secs
acme-answers = refl

answers-alone_example :
    answers acme (new_throttle 2) run ≡ answers acme (new_throttle 2) (retain (is_of acme) run)
unfolding new_throttle
answers-alone_example = answers-alone acme 0 (new_throttle 2) run tt (
  omega arith,
  λ key. omega arith,
  (
    omega arith,
    λ key. omega arith,
    (omega arith, λ key. omega arith, (omega arith, λ key. omega arith, tt)),
  ),
)

passes-minute_example : passes (answers acme (new_throttle 2) run) ≡ min 2 (asked acme run)
passes-minute_example = passes-minute 2 0 acme run (omega arith) (
  omega arith,
  omega arith,
  λ key. omega arith,
  (
    omega arith,
    omega arith,
    λ key. omega arith,
    (
      omega arith,
      omega arith,
      λ key. omega arith,
      (omega arith, omega arith, λ key. omega arith, tt),
    ),
  ),
)

-- One write used up a limit of one; the next is told to wait, and waits.
abbrev full : WriteThrottle
full = record {
  limit_per_minute = 1;
  windows = (acme, record { start = 500_000_000; count = 1 }) ∷ [];
}

full_told : (check full acme (at 1_500_000_000)).1 ≡ retry_after 59
unfolding check clean_up lookup insert or_insert reset_expired admit seconds_left elapsed_secs
full_told = refl

check-waited_example :
    (check (check full acme (at 1_500_000_000)).0 acme (at 60_500_000_000)).1 ≡ passed
unfolding lookup
check-waited_example =
    check-waited full acme (at 1_500_000_000) (at 60_500_000_000) (refl, tt) (omega arith)
      (omega arith, tt) (omega arith) full_told (omega arith) (omega arith)
