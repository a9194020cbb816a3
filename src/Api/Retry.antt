-- ===== src/Api/Retry.antt =====
-- What a throttled key is told, and what it gets when it waits that long.
use flowplane.Base.{
  ℕ, ◌+◌, ◌*◌, ◌≤◌, ◌<◌, ◌≡◌, ◌∙◌, ap, inl, inr, refl, Bool-cases, Option, none, some, Text, lookup,
  IsKeyed, Dict, All, All-retain, All-lookup, length, ltb, subst, sym, leb, List-Eq, ℕ-Eq, arith,
}
use flowplane.Api.Throttle.{
  Window, WriteThrottle, Readings, passed, retry_after, elapsed_secs, is_recent, clean_up,
  or_insert, reset_expired, seconds_left, admit, check,
}
use flowplane.Api.Entry.{
  Same, turn, turn-Same, clean-Same, check-answer, check-own, check-limit, check-IsKeyed,
}

-- A throttled check leaves the window as it is.
admit_told :
    (limit at : ℕ) (w : Window) {s : ℕ}
    → (admit limit at w).1 ≡ retry_after s
    → ((admit limit at w).0 ≡ w) × (s ≡ seconds_left w at)
unfolding admit
admit_told limit at w told = elim (Bool-cases (leb limit w.count)) [
  | inl full ↦ rw full (refl, cc)
  | inr room ↦ absurd cc
]

seconds_left-bounds : (w : Window) (at : ℕ) → (1 ≤ seconds_left w at) × (seconds_left w at ≤ 60)
unfolding seconds_left
seconds_left-bounds w at = (ground arith, ground arith)

-- Who has waited that long finds a new window.
waited :
    (w : Window) (at : ℕ) (later : Readings)
    → w.start ≤ at
    → at + seconds_left w at * 1_000_000_000 ≤ later.reset
    → reset_expired later w ≡ record { start = later.now; count = 0 }
unfolding reset_expired seconds_left elapsed_secs
waited w at later past le = ground arith

first_passes : (limit at : ℕ) (w : Window) → 0 < limit → w.count ≡ 0 → (admit limit at w).1 ≡ passed
unfolding admit
first_passes limit at w pos zero = ground arith

-- The windows started before the clock is read.
abbrev pub HasStarted : ℕ → Text × Window → Type 0
HasStarted at (key, w) = w.start ≤ at

clean_started :
    (r : Readings) (at : ℕ) (m : Dict Text Window)
    → All (HasStarted at) m
    → All (HasStarted at) (clean_up r m)
unfolding clean_up
clean_started r at m h = elim (Bool-cases (ltb 10_000 (length m))) [
  | inl full ↦ rw full (All-retain (HasStarted at) (is_recent r) m h)
  | inr small ↦ rw small h
]

turn_started :
    (r : Readings) (at : ℕ) (o : Option Window)
    → ((w : Window) → o ≡ some w → w.start ≤ at)
    → r.now ≤ at
    → (reset_expired r (or_insert r.now o)).start ≤ at
unfolding reset_expired or_insert
turn_started r at none h le = ground arith
turn_started r at (some w) h le = ground (arith, h w refl)

turn_later :
    (limit : ℕ) (r later : Readings) (o : Option Window) {s : ℕ}
    → 0 < limit
    → ((w : Window) → o ≡ some w → w.start ≤ r.retry)
    → r.now ≤ r.retry
    → (turn limit r o).1 ≡ retry_after s
    → r.retry + s * 1_000_000_000 ≤ later.reset
    → (turn limit later (some (turn limit r o).0)).1 ≡ passed
unfolding turn or_insert
turn_later limit r later o pos started now told le =
    let w = reset_expired r (or_insert r.now o) in
    let (same, left) = admit_told limit r.retry w told in
    let new =
      waited w r.retry later (turn_started r r.retry o started now)
        (subst (λ s. r.retry + s * 1_000_000_000 ≤ later.reset) left le) in
    rw (same, new) (first_passes limit later.retry _ pos refl)

-- A throttled key is told to wait between 1 and 60 seconds.
pub check-retry_after :
    (t : WriteThrottle) (key : Text) (r : Readings) {s : ℕ}
    → (check t key r).1 ≡ retry_after s
    → (1 ≤ s) × (s ≤ 60)
unfolding turn
check-retry_after t key r told =
    let w = reset_expired r (or_insert r.now (lookup key (clean_up r t.windows))) in
    let (_, left) = admit_told t.limit_per_minute r.retry w (sym (check-answer t key r) ∙ told) in
    rw left (seconds_left-bounds w r.retry)

-- A throttled key that waits as long as it was told and then asks next passes, if the limit is not
-- 0: the time it is told is enough. The state holds no key twice, windows start before the throttled
-- check ends, and the second check cleans up before it resets.
pub check-waited :
    (t : WriteThrottle) (key : Text) (r later : Readings) {s : ℕ}
    → IsKeyed t.windows
    → 0 < t.limit_per_minute
    → All (HasStarted r.retry) t.windows
    → r.now ≤ r.retry
    → (check t key r).1 ≡ retry_after s
    → r.retry + s * 1_000_000_000 ≤ later.reset
    → later.cleanup key ≤ later.reset
    → (check (check t key r).0 key later).1 ≡ passed
check-waited t key r later keyed pos started now told le clean =
    let after = (check t key r).0 in
    let o = lookup key (clean_up r t.windows) in
    let entry = check-own t key r in
    let same = clean-Same later key later.reset after.windows (check-IsKeyed t key r keyed) clean in
    let alike : Same later.reset (lookup key (clean_up later after.windows))
        (some (turn t.limit_per_minute r o).0) =
      subst (Same later.reset (lookup key (clean_up later after.windows))) entry same in
    check-answer after key later
    ∙ ap (λ x. x.1)
        (ap (λ limit. turn limit later (lookup key (clean_up later after.windows)))
            (check-limit t key r)
          ∙ turn-Same t.limit_per_minute later alike)
    ∙ turn_later t.limit_per_minute r later o pos
        (λ w found.
          All-lookup (HasStarted r.retry) key (clean_up r t.windows)
            (clean_started r r.retry t.windows started) found)
        now (sym (check-answer t key r) ∙ told) le
