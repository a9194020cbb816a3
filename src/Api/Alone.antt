-- ===== src/Api/Alone.antt =====
-- What a key is told in a run of checks, and that other keys have no part in it.
use flowplane.Base.{
  ℕ, ◌≤◌, ◌≡◌, ◌≢◌, ◌∙◌, sym, subst, ap, some, inl, inr, refl, Bool, Bool-cases, List, [], ◌∷◌,
  Text, lookup, IsKeyed, retain, ◌==◌, List-Eq, ℕ-Eq, if◌then◌else◌, arith,
}
use flowplane.Base.SortedMap.{text_eq_iff}
use flowplane.Api.Throttle.{WriteThrottle, Readings, Answer, check, clean_up}
use flowplane.Api.Entry.{
  turn, Same, later_Same, sym_Same, trans_Same, clean-Same, turn-Same, check-answer, check-own,
  check-other, check-limit, check-IsKeyed,
}

pub record Call : Type 0 where
  pub key : Text
  pub readings : Readings

abbrev pub is_of : Text → Call → Bool
is_of key c = c.key == key

-- The answers that a key gets in a run, in order.
unfoldable pub answers : Text → WriteThrottle → List Call → List Answer
answers key t [] = []
answers key t (c ∷ calls) =
    let (after, answer) = check t c.key c.readings in
    let rest = answers key after calls in if is_of key c then answer ∷ rest else rest

-- Whoever holds the lock later reads a later clock, and cleans up before it resets.
abbrev pub IsOrdered : ℕ → List Call → Type 0
IsOrdered clock [] = Unit
IsOrdered clock (c ∷ calls) =
    clock ≤ c.readings.reset
    × ((key : Text) → c.readings.cleanup key ≤ c.readings.reset)
    × IsOrdered c.readings.reset calls

-- Two states that a key cannot tell apart from some time on.
record Alike (key : Text) (clock : ℕ) (t u : WriteThrottle) : Type 0 where
  limits : t.limit_per_minute ≡ u.limit_per_minute
  entries : Same clock (lookup key t.windows) (lookup key u.windows)
  keyed : IsKeyed t.windows
  keyed_too : IsKeyed u.windows

module _ {key : Text} {clock : ℕ} {t u : WriteThrottle} where
  -- A check of another key.
  skip :
      (other : Text) (r : Readings)
      → Alike key clock t u
      → other ≢ key
      → clock ≤ r.reset
      → r.cleanup key ≤ r.reset
      → Alike key r.reset (check t other r).0 u
  skip other r a ne le clean = record {
    limits = check-limit t other r ∙ a.limits;
    entries =
        trans_Same r.reset
          (subst (λ o. Same r.reset o (lookup key t.windows)) (sym (check-other t other key r ne))
            (clean-Same r key r.reset t.windows a.keyed clean))
          (later_Same le a.entries);
    keyed = check-IsKeyed t other r a.keyed;
    keyed_too = a.keyed_too;
  }

  same_turn :
      (r : Readings)
      → Alike key clock t u
      → clock ≤ r.reset
      → r.cleanup key ≤ r.reset
      → turn t.limit_per_minute r (lookup key (clean_up r t.windows))
        ≡ turn u.limit_per_minute r (lookup key (clean_up r u.windows))
  same_turn r a le clean =
      let mine = clean-Same r key r.reset t.windows a.keyed clean in
      let yours = clean-Same r key r.reset u.windows a.keyed_too clean in
      let entries = trans_Same r.reset (later_Same le a.entries) (sym_Same r.reset yours) in
      rw a.limits (turn-Same u.limit_per_minute r (trans_Same r.reset mine entries))

  -- A check of the key itself, in both.
  together :
      (r : Readings)
      → Alike key clock t u
      → clock ≤ r.reset
      → r.cleanup key ≤ r.reset
      → Alike key r.reset (check t key r).0 (check u key r).0
  together r a le clean = record {
    limits = check-limit t key r ∙ a.limits ∙ sym (check-limit u key r);
    entries =
        inl (
          check-own t key r
          ∙ ap (λ x. some x.0) (same_turn r a le clean)
          ∙ sym (check-own u key r));
    keyed = check-IsKeyed t key r a.keyed;
    keyed_too = check-IsKeyed u key r a.keyed_too;
  }

  same_answer :
      (r : Readings)
      → Alike key clock t u
      → clock ≤ r.reset
      → r.cleanup key ≤ r.reset
      → (check t key r).1 ≡ (check u key r).1
  same_answer r a le clean =
      check-answer t key r ∙ ap (λ x. x.1) (same_turn r a le clean) ∙ sym (check-answer u key r)

cons_eq {ℓ} : {A : Type ℓ} {x y : A} {xs ys : List A} → x ≡ y → xs ≡ ys → (x ∷ xs) ≡ (y ∷ ys)
cons_eq e f = cc

alike :
    (key : Text) (clock : ℕ) (t u : WriteThrottle) (calls : List Call)
    → Alike key clock t u
    → IsOrdered clock calls
    → answers key t calls ≡ answers key u (retain (is_of key) calls)
unfolding answers
alike key clock t u [] a h = refl
alike key clock t u (c ∷ calls) a (le, clean, h) = elim (Bool-cases (c.key == key)) [
  | inl own ↦
      let e : c.key ≡ key = (text_eq_iff c.key key).0 own in
      let first = same_answer c.readings a le (clean key) in
      let rest =
        alike key c.readings.reset (check t key c.readings).0 (check u key c.readings).0 calls
          (together c.readings a le (clean key)) h in
      rw (own, own, e) (cons_eq first rest)
  | inr other ↦ rw other (
      alike key c.readings.reset (check t c.key c.readings).0 u calls
        (skip c.key c.readings a (ground (arith, text_eq_iff c.key key)) le (clean key)) h)
]

-- A key gets the answers that it would get if nobody else wrote: the checks of other keys, and the
-- clean-up that they cause, change none of them. The state holds no key twice, and whoever holds
-- the lock later reads a later clock.
pub answers-alone :
    (key : Text) (clock : ℕ) (t : WriteThrottle) (calls : List Call)
    → IsKeyed t.windows
    → IsOrdered clock calls
    → answers key t calls ≡ answers key t (retain (is_of key) calls)
answers-alone key clock t calls keyed h =
    alike key clock t t calls
      record { limits = refl; entries = inl refl; keyed = keyed; keyed_too = keyed } h
