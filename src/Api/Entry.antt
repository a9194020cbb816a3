-- ===== src/Api/Entry.antt =====
-- The entry of one key in the write throttle: what a check makes of it, and when two entries cannot
-- be told apart.
use flowplane.Base.{
  ℕ, ◌+◌, ◌≤◌, ◌≡◌, ◌≢◌, ◌⊎◌, inl, inr, refl, sym, subst, Bool-cases, Option, none, some, Text,
  Dict, lookup, IsKeyed, kept, insert-IsKeyed, retain-IsKeyed, lookup-retain, lookup-insert_self,
  lookup-insert_ne, length, ltb, List-Eq, ℕ-Eq, arith,
}
use flowplane.Api.Throttle.{
  Window, WriteThrottle, Readings, Answer, elapsed_secs, is_recent, clean_up, or_insert,
  reset_expired, admit, check,
}

-- A check of one key, once the map is cleaned.
unfoldable pub turn : ℕ → Readings → Option Window → Window × Answer
turn limit r o = admit limit r.retry (reset_expired r (or_insert r.now o))

pub check-limit :
    (t : WriteThrottle) (key : Text) (r : Readings)
    → (check t key r).0.limit_per_minute ≡ t.limit_per_minute
unfolding check
check-limit t key r = refl

pub check-answer :
    (t : WriteThrottle) (key : Text) (r : Readings)
    → (check t key r).1 ≡ (turn t.limit_per_minute r (lookup key (clean_up r t.windows))).1
unfolding check turn
check-answer t key r = refl

pub check-own :
    (t : WriteThrottle) (key : Text) (r : Readings)
    → lookup key (check t key r).0.windows
      ≡ some (turn t.limit_per_minute r (lookup key (clean_up r t.windows))).0
unfolding check turn
check-own t key r = lookup-insert_self key _ (clean_up r t.windows)

pub check-other :
    (t : WriteThrottle) (key other : Text) (r : Readings)
    → key ≢ other
    → lookup other (check t key r).0.windows ≡ lookup other (clean_up r t.windows)
unfolding check
check-other t key other r ne = lookup-insert_ne key other _ (clean_up r t.windows) ne

clean-IsKeyed : (r : Readings) (m : Dict Text Window) → IsKeyed m → IsKeyed (clean_up r m)
unfolding clean_up
clean-IsKeyed r m h = elim (Bool-cases (ltb 10_000 (length m))) [
  | inl full ↦ rw full (retain-IsKeyed (is_recent r) m h)
  | inr small ↦ rw small h
]

pub check-IsKeyed :
    (t : WriteThrottle) (key : Text) (r : Readings)
    → IsKeyed t.windows
    → IsKeyed (check t key r).0.windows
unfolding check
check-IsKeyed t key r h = insert-IsKeyed key _ (clean_up r t.windows) (clean-IsKeyed r t.windows h)

-- A minute or more has gone by since the start of the entry, if there is one.
abbrev pub IsPast : ℕ → Option Window → Type 0
IsPast at none = Unit
IsPast at (some w) = w.start + 60_000_000_000 ≤ at

-- From that time on the two entries make no difference.
abbrev pub Same : ℕ → Option Window → Option Window → Type 0
Same at o p = (o ≡ p) ⊎ (IsPast at o × IsPast at p)

later_IsPast : {at later : ℕ} (o : Option Window) → at ≤ later → IsPast at o → IsPast later o
later_IsPast none le h = tt
later_IsPast (some w) le h = omega arith

pub later_Same : {at later : ℕ} {o p : Option Window} → at ≤ later → Same at o p → Same later o p
later_Same le (inl e) = inl e
later_Same {o = o} {p = p} le (inr (h, k)) = inr (later_IsPast o le h, later_IsPast p le k)

pub sym_Same : (at : ℕ) {o p : Option Window} → Same at o p → Same at p o
sym_Same at (inl e) = inl (sym e)
sym_Same at (inr (h, k)) = inr (k, h)

pub trans_Same : (at : ℕ) {o p q : Option Window} → Same at o p → Same at p q → Same at o q
trans_Same at {q = q} (inl e) s = subst (λ x. Same at x q) (sym e) s
trans_Same at {o = o} (inr h) (inl e) = subst (λ x. Same at o x) e (inr h)
trans_Same at (inr (h, k)) (inr (l, m)) = inr (h, m)

restarted :
    (r : Readings) (o : Option Window)
    → IsPast r.reset o
    → reset_expired r (or_insert r.now o) ≡ record { start = r.now; count = 0 }
unfolding reset_expired or_insert elapsed_secs
restarted r none h = ground arith
restarted r (some w) h = ground arith

pub turn-Same :
    (limit : ℕ) (r : Readings) {o p : Option Window}
    → Same r.reset o p
    → turn limit r o ≡ turn limit r p
unfolding turn
turn-Same limit r (inl e) = cc
turn-Same limit r {o = o} {p = p} (inr (h, k)) = rw (restarted r o h, restarted r p k) refl

kept-Same :
    (r : Readings) (key : Text) (at : ℕ) (o : Option Window)
    → r.cleanup key ≤ at
    → Same at (kept (is_recent r) key o) o
unfolding is_recent elapsed_secs
kept-Same r key at none le = inl refl
kept-Same r key at (some w) le = elim (Bool-cases (is_recent r (key, w))) [
  | inl recent ↦ rw recent (inl refl)
  | inr old ↦ rw old (inr (tt, ground (arith, old)))
]

-- A clean-up changes nothing that a check can tell at its later reading.
pub clean-Same :
    (r : Readings) (key : Text) (at : ℕ) (m : Dict Text Window)
    → IsKeyed m
    → r.cleanup key ≤ at
    → Same at (lookup key (clean_up r m)) (lookup key m)
unfolding clean_up
clean-Same r key at m h le = elim (Bool-cases (ltb 10_000 (length m))) [
  | inl full ↦ rw (full, lookup-retain (is_recent r) key m h) (kept-Same r key at (lookup key m) le)
  | inr small ↦ rw small (inl refl)
]
