-- ===== src/Rls/Counter.antt =====
-- The counter store behind its trait (crates/flowplane-rls/src/counter.rs): what a fixed-window
-- counter promises, whoever implements it.
use flowplane.Base.{
  ℕ, ◌+◌, ◌/◌, min, ◌≡◌, Option, none, some, Text, nat_eq, ◌==◌, List-Eq, ℕ-Eq, if◌then◌else◌,
}

-- One counter: the id of its window and the hits counted in it.
pub record Slot : Type 0 where
  pub window : ℕ
  pub count : ℕ

abbrev pub u64_max : ℕ
u64_max = 18446744073709551615

-- `u64::saturating_add`.
abbrev pub saturating_add : ℕ → ℕ → ℕ
saturating_add a b = min (a + b) u64_max

-- The window that a time falls in.
unfoldable pub window_id : ℕ → ℕ → ℕ
window_id window_seconds now = if nat_eq window_seconds 0 then now else now / window_seconds

-- A slot after `hits` in a window: a count of another window starts afresh.
unfoldable pub bump : Option Slot → ℕ → ℕ → Slot
bump none window hits = record { window = window; count = saturating_add 0 hits }
bump (some s) window hits =
    if nat_eq s.window window
    then record s { count = saturating_add s.count hits }
    else record { window = window; count = saturating_add 0 hits }

-- The trait, with a view of the store as one slot for each key, and what `incr` does to the view.
pub record CounterStore : Type 1 where
  pub Store : Type 0
  pub incr : Text → ℕ → ℕ → ℕ → Store → Store × ℕ
  pub slot : Store → Text → Option Slot
  pub slot-incr :
      (key : Text) (w hits now : ℕ) (s : Store) (j : Text)
      → slot (incr key w hits now s).0 j
        ≡ (if key == j then some (bump (slot s key) (window_id w now) hits) else slot s j)
  pub count-incr :
      (key : Text) (w hits now : ℕ) (s : Store)
      → (incr key w hits now s).1 ≡ (bump (slot s key) (window_id w now) hits).count
