-- ===== src/Api/Budget.antt =====
-- How many writes a window lets through, and what the time of a retry is worth.
use flowplane.Base.{
  ℕ, ◌+◌, ◌-◌, ◌≤◌, ◌<◌, min, ◌≡◌, ◌∙◌, ap, subst, inl, inr, refl, sym, Bool-cases, List, [], ◌∷◌,
  Option, none, some, Text, Dict, lookup, IsKeyed, kept, lookup-retain, length, ltb, ◌==◌, List-Eq,
  ℕ-Eq, if◌then◌else◌, arith,
}
use flowplane.Base.SortedMap.{text_eq_iff}
use flowplane.Api.Throttle.{
  Window, WriteThrottle, Readings, Answer, passed, retry_after, new_throttle, elapsed_secs,
  is_recent, clean_up, or_insert, reset_expired, admit, check,
}
use flowplane.Api.Entry.{turn, check-answer, check-own, check-other, check-limit, check-IsKeyed}
use flowplane.Api.Alone.{Call, is_of, answers}

abbrev cost : Answer → ℕ
cost passed = 1
cost (retry_after s) = 0

abbrev pub passes : List Answer → ℕ
passes [] = 0
passes (a ∷ list) = cost a + passes list

abbrev pub asked : Text → List Call → ℕ
asked key [] = 0
asked key (c ∷ calls) = (if is_of key c then 1 else 0) + asked key calls

-- All clocks of the run are read within the minute from `from`.
abbrev pub IsMinute : ℕ → List Call → Type 0
IsMinute from [] = Unit
IsMinute from (c ∷ calls) =
    from ≤ c.readings.now
    × c.readings.reset < from + 60_000_000_000
    × ((key : Text) → c.readings.cleanup key < from + 60_000_000_000)
    × IsMinute from calls

abbrev spent : Option Window → ℕ
spent none = 0
spent (some w) = w.count

abbrev IsFresh : ℕ → ℕ → Option Window → Type 0
IsFresh limit from none = Unit
IsFresh limit from (some w) = from ≤ w.start × w.count ≤ limit

kept_fresh :
    (limit from : ℕ) (r : Readings) (key : Text) (o : Option Window)
    → IsFresh limit from o
    → r.cleanup key < from + 60_000_000_000
    → kept (is_recent r) key o ≡ o
unfolding is_recent elapsed_secs
kept_fresh limit from r key none h lt = refl
kept_fresh limit from r key (some w) (h, _) lt = ground arith

clean_fresh :
    (limit from : ℕ) (r : Readings) (key : Text) (m : Dict Text Window)
    → IsKeyed m
    → IsFresh limit from (lookup key m)
    → r.cleanup key < from + 60_000_000_000
    → lookup key (clean_up r m) ≡ lookup key m
unfolding clean_up
clean_fresh limit from r key m keyed h lt = elim (Bool-cases (ltb 10_000 (length m))) [
  | inl full ↦
      rw (full, lookup-retain (is_recent r) key m keyed) (kept_fresh limit from r key _ h lt)
  | inr small ↦ rw small refl
]

-- Within the minute nothing is reset.
not_expired :
    (limit from : ℕ) (r : Readings) (o : Option Window)
    → IsFresh limit from o
    → from ≤ r.now
    → r.reset < from + 60_000_000_000
    → reset_expired r (or_insert r.now o) ≡ or_insert r.now o
unfolding reset_expired or_insert elapsed_secs
not_expired limit from r none h le lt = ground arith
not_expired limit from r (some w) (h, _) le lt = ground arith

inserted :
    (limit from now : ℕ) (o : Option Window)
    → IsFresh limit from o
    → from ≤ now
    → IsFresh limit from (some (or_insert now o)) × ((or_insert now o).count ≡ spent o)
unfolding or_insert
inserted limit from now none h le = ((le, omega arith), refl)
inserted limit from now (some w) h le = (h, refl)

admit-IsFresh :
    (limit from at : ℕ) (w : Window)
    → limit < 4_294_967_296
    → IsFresh limit from (some w)
    → IsFresh limit from (some (admit limit at w).0)
      × ((admit limit at w).0.count ≡ w.count + cost (admit limit at w).1)
      × (cost (admit limit at w).1 ≡ min (limit - w.count) 1)
unfolding admit
admit-IsFresh limit from at w u32 (h, k) = (ground arith, ground arith, ground arith)

turn-IsFresh :
    (limit from : ℕ) (r : Readings) (o : Option Window)
    → limit < 4_294_967_296
    → IsFresh limit from o
    → from ≤ r.now
    → r.reset < from + 60_000_000_000
    → IsFresh limit from (some (turn limit r o).0)
      × ((turn limit r o).0.count ≡ spent o + cost (turn limit r o).1)
      × (cost (turn limit r o).1 ≡ min (limit - spent o) 1)
unfolding turn
turn-IsFresh limit from r o u32 h le lt =
    let (fresh, count) = inserted limit from r.now o h le in
    rw (not_expired limit from r o h le lt, sym count)
      (admit-IsFresh limit from r.retry (or_insert r.now o) u32 fresh)

-- The checks of a run within one minute, from any state whose windows started in it.
passes_from :
    (limit from : ℕ) (key : Text) (t : WriteThrottle) (calls : List Call)
    → limit < 4_294_967_296
    → t.limit_per_minute ≡ limit
    → IsKeyed t.windows
    → IsFresh limit from (lookup key t.windows)
    → IsMinute from calls
    → passes (answers key t calls) ≡ min (limit - spent (lookup key t.windows)) (asked key calls)
unfolding answers
passes_from limit from key t [] u32 e keyed fresh h = omega arith
passes_from limit from key t (c ∷ calls) u32 e keyed fresh (le, lt, clean, h) =
    let r = c.readings in
    let after = (check t c.key r).0 in
    let limits = check-limit t c.key r ∙ e in
    let still = check-IsKeyed t c.key r keyed in
    let cleaned = clean_fresh limit from r key t.windows keyed fresh (clean key) in
    elim (Bool-cases (c.key == key)) [
      | inl own ↦
          let same : c.key ≡ key = (text_eq_iff c.key key).0 own in
          let (new, count, price) =
            turn-IsFresh limit from r (lookup key t.windows) u32 fresh le lt in
          let now : lookup key after.windows ≡ some (turn limit r (lookup key t.windows)).0 =
            rw (same, check-own t key r, e, cleaned) refl in
          let answer : (check t c.key r).1 ≡ (turn limit r (lookup key t.windows)).1 =
            rw (same, check-answer t key r, e, cleaned) refl in
          let rest =
            passes_from limit from key after calls u32 limits still
              (subst (IsFresh limit from) (sym now) new) h in
          rw own (omega (arith, rest, ap spent now, ap cost answer, count, price))
      | inr other ↦
          let now : lookup key after.windows ≡ lookup key t.windows =
            check-other t c.key key r (ground (arith, text_eq_iff c.key key)) ∙ cleaned in
          let rest =
            passes_from limit from key after calls u32 limits still
              (subst (IsFresh limit from) (sym now) fresh) h in
          rw other (omega (arith, rest, ap spent now))
    ]

-- A key that asks in the first minute of a throttle passes until the limit is used up, whatever
-- other keys ask: of its checks exactly as many pass as the limit allows. The limit is a `u32`.
pub passes-minute :
    (limit from : ℕ) (key : Text) (calls : List Call)
    → limit < 4_294_967_296
    → IsMinute from calls
    → passes (answers key (new_throttle limit) calls) ≡ min limit (asked key calls)
unfolding new_throttle lookup
passes-minute limit from key calls u32 h =
    omega (arith, passes_from limit from key (new_throttle limit) calls u32 refl tt tt h)
