-- ===== src/Rls/Window.antt =====
-- A fixed window counts every hit of its window, and only those.
use flowplane.Base.{
  subst, ℕ, ◌+◌, ◌≤◌, ◌<◌, min, ◌≡◌, refl, Bool, ◌&&◌, List, [], ◌∷◌, Option, none, some, Text,
  nat_eq, ◌==◌, List-Eq, ℕ-Eq, if◌then◌else◌, arith, Bool-cases, inl, inr,
}
use flowplane.Base.SortedMap.{text_eq_iff}
use flowplane.Rls.Counter.{Slot, u64_max, window_id, bump, CounterStore}

-- One call of `incr`.
pub record Call : Type 0 where
  pub key : Text
  pub window_seconds : ℕ
  pub hits : ℕ
  pub now : ℕ

abbrev pub window_of : Call → ℕ
window_of c = window_id c.window_seconds c.now

-- The hits of the calls for a key in a window. A history has its latest call first.
abbrev pub in_window : Text → ℕ → Call → Bool
in_window key id c = c.key == key && nat_eq (window_of c) id

unfoldable pub tally : Text → ℕ → List Call → ℕ
tally key id [] = 0
tally key id (c ∷ past) = (if in_window key id c then c.hits else 0) + tally key id past

-- Every call for the key is of that window or an earlier one.
abbrev pub AtMost : Text → ℕ → List Call → Type 0
AtMost key id [] = Unit
AtMost key id (p ∷ past) = (p.key ≡ key → window_of p ≤ id) × AtMost key id past

-- The clock does not run backwards, as the windows of each key show it.
abbrev pub IsOrdered : List Call → Type 0
IsOrdered [] = Unit
IsOrdered (c ∷ past) = AtMost c.key (window_of c) past × IsOrdered past

-- What a slot has counted in a window.
abbrev counted : Option Slot → ℕ → ℕ
counted none id = 0
counted (some s) id = if nat_eq s.window id then s.count else 0

counted-bump :
    (o : Option Slot) (window hits id : ℕ)
    → counted (some (bump o window hits)) id
      ≡ (if nat_eq window id then min (hits + counted o id) u64_max else 0)
unfolding bump
counted-bump o window hits id = ground arith

count-bump :
    (o : Option Slot) (window hits : ℕ)
    → (bump o window hits).count ≡ min (hits + counted o window) u64_max
unfolding bump
count-bump o window hits = ground arith

-- No call of a later window than all there are.
tally-AtMost :
    (key : Text) (w id : ℕ) (past : List Call) → AtMost key w past → w < id → tally key id past ≡ 0
unfolding tally
tally-AtMost key w id [] o lt = refl
tally-AtMost key w id (p ∷ past) (o, os) lt =
    ground (arith, text_eq_iff p.key key, tally-AtMost key w id past os lt)

module _ (counters : CounterStore) where
  open counters use {Store, incr, slot, slot-incr, count-incr}

  -- The store after a history, whose latest call comes first.
  unfoldable pub after : Store → List Call → Store
  after s [] = s
  after s (c ∷ past) = (incr c.key c.window_seconds c.hits c.now (after s past)).0

  -- The total that a call returns.
  unfoldable pub returned : Store → Call → List Call → ℕ
  returned s c past = (incr c.key c.window_seconds c.hits c.now (after s past)).1

  counted-after :
      (s : Store) (key : Text) (id : ℕ) (past : List Call)
      → slot s key ≡ none
      → IsOrdered past
      → AtMost key id past
      → counted (slot (after s past) key) id ≡ min (tally key id past) u64_max
  unfolding after tally
  counted-after s key id [] empty o m = rw empty (omega arith)
  counted-after s key id (p ∷ past) empty (o, os) (m, ms) = elim (Bool-cases (p.key == key)) [
    | inl same ↦
        let e : p.key ≡ key = (text_eq_iff p.key key).0 same in
        rw
          (
            slot-incr p.key p.window_seconds p.hits p.now (after s past) key,
            same,
            counted-bump,
            e,
            counted-after s key id past empty os ms,
          )
          (ground (
            arith,
            m e,
            tally-AtMost key (window_of p) id past (subst (λ k. AtMost k (window_of p) past) e o),
          ))
    | inr other ↦
        rw (slot-incr p.key p.window_seconds p.hits p.now (after s past) key, other)
          (omega (arith, counted-after s key id past empty os ms))
  ]

  -- A call returns the hits of its window so far, its own included, whatever other keys counted in
  -- between; the count stops at `u64::MAX`. The key starts without a counter, and the windows of a
  -- key do not run backwards.
  pub returned-eq-tally :
      (s : Store) (c : Call) (past : List Call)
      → slot s c.key ≡ none
      → IsOrdered (c ∷ past)
      → returned s c past ≡ min (tally c.key (window_of c) (c ∷ past)) u64_max
  unfolding returned tally
  returned-eq-tally s c past empty (o, os) =
      rw
        (
          count-incr c.key c.window_seconds c.hits c.now (after s past),
          count-bump,
          counted-after s c.key (window_of c) past empty os o,
        )
        (ground (arith, text_eq_iff c.key c.key))
