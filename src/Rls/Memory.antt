-- ===== src/Rls/Memory.antt =====
-- The in-memory store (crates/flowplane-rls/src/counter.rs): 64 maps, a key in the map that its hash
-- selects. A shard's lock makes one `incr` one step; a poisoned lock is recovered, and changes
-- nothing.
use Prim.Native.Nat.{bit_xor}
use flowplane.Base.{
  false, ℕ, zero, suc, ◌*◌, ◌%◌, ◌^◌, ◌≡◌, ◌<◌, refl, ap, List, [], ◌∷◌, Option, none, some, Text,
  as_bytes, Dict, lookup, insert, lookup-insert, nat_eq, nat_eq_iff, ◌==◌, List-Eq, ℕ-Eq,
  if◌then◌else◌, length, get_or, set, length-set, get_or-set, replicate, length-replicate,
  Bool-cases, inl, inr, arith, ◌∙◌,
}
use flowplane.Base.SortedMap.{text_eq_iff}
use flowplane.Rls.Counter.{Slot, saturating_add, window_id, bump, CounterStore}

abbrev pub shards_len : ℕ
shards_len = 64

-- FNV-1a over the bytes of the key.
unfoldable pub fnv : ℕ → List ℕ → ℕ
fnv hash [] = hash
fnv hash (byte ∷ bytes) = fnv (bit_xor hash byte * 0x100000001b3 % 2 ^ 64) bytes

unfoldable pub shard_index : Text → ℕ
unfolding fnv as_bytes
shard_index key = fnv 0xcbf29ce484222325 (as_bytes key) % shards_len

pub record Memory : Type 0 where
  pub shards : List (Dict Text Slot)
  pub sized : length shards ≡ shards_len

-- `InMemoryFixedWindow::new`.
unfoldable pub new : Memory
new = record {
  shards = replicate shards_len [];
  sized = length-replicate {A = Dict Text Slot} shards_len [];
}

unfoldable pub shard : Memory → Text → Dict Text Slot
shard s key = get_or s.shards (shard_index key) []

-- `entry(key).or_insert(Slot { window, count: 0 })`, the reset on another window, and the count.
abbrev or_insert : Option Slot → ℕ → Slot
or_insert none window = record { window = window; count = 0 }
or_insert (some s) window = s

abbrev reset : Slot → ℕ → Slot
reset s window = if nat_eq s.window window then s else record { window = window; count = 0 }

unfoldable pub incr : Text → ℕ → ℕ → ℕ → Memory → Memory × ℕ
unfolding shard
incr key window_seconds hits now_unix s =
    let window = window_id window_seconds now_unix in
    let guard = shard s key in
    let fresh = reset (or_insert (lookup key guard) window) window in
    let count = saturating_add fresh.count hits in
    let guard' = insert key (record fresh { count = count }) guard in
    (
      record {
        shards = set s.shards (shard_index key) guard';
        sized = length-set s.shards (shard_index key) guard' ∙ s.sized;
      },
      count,
    )

abbrev pub slot : Memory → Text → Option Slot
unfolding shard
slot s key = lookup key (shard s key)

shard_index_bound : (key : Text) → shard_index key < shards_len
unfolding shard_index
shard_index_bound key = omega arith

bump-reset :
    (o : Option Slot) (window hits : ℕ)
    → (let fresh = reset (or_insert o window) window in
        record fresh { count = saturating_add fresh.count hits })
      ≡ bump o window hits
unfolding bump
bump-reset o window hits = ground arith

-- The shards hold the view of one map: only the slot of the key changes.
pub slot-incr :
    (key : Text) (w hits now : ℕ) (s : Memory) (j : Text)
    → slot (incr key w hits now s).0 j
      ≡ (if key == j then some (bump (slot s key) (window_id w now) hits) else slot s j)
unfolding incr
slot-incr key w hits now s j = elim (Bool-cases (nat_eq (shard_index key) (shard_index j))) [
  | inl together ↦ rw (
    get_or-set s.shards (shard_index key) (shard_index j) _ [] in_range,
    together,
    lookup-insert,
    bump-reset (slot s key) (window_id w now) hits,
    ← (nat_eq_iff _ _).0 together,
  )
  | inr apart ↦
      rw (
        get_or-set s.shards (shard_index key) (shard_index j) _ [] in_range,
        apart,
        other_key apart,
      )
]
  where
    in_range : shard_index key < length s.shards
    in_range = omega (arith, s.sized, shard_index_bound key)

    other_key : nat_eq (shard_index key) (shard_index j) ≡ false → (key == j) ≡ false
    other_key apart = elim (Bool-cases (key == j)) [
      | inl same ↦ ground (arith, ap shard_index ((text_eq_iff key j).0 same))
      | inr e ↦ e
    ]

pub count-incr :
    (key : Text) (w hits now : ℕ) (s : Memory)
    → (incr key w hits now s).1 ≡ (bump (slot s key) (window_id w now) hits).count
unfolding incr
count-incr key w hits now s = ap (λ s. s.count) (bump-reset (slot s key) (window_id w now) hits)

get_or-replicate : (n i : ℕ) → get_or {A = Dict Text Slot} (replicate n []) i [] ≡ []
get_or-replicate zero i = refl
get_or-replicate (suc n) zero = refl
get_or-replicate (suc n) (suc i) = get_or-replicate n i

-- A fresh store has no counter.
pub slot-new : (key : Text) → slot new key ≡ none
unfolding new shard lookup
slot-new key = rw (get_or-replicate shards_len (shard_index key)) refl

-- The sharded store keeps the promise of the trait.
abbrev pub in_memory : CounterStore
in_memory = record {
  Store = Memory;
  incr = incr;
  slot = slot;
  slot-incr = slot-incr;
  count-incr = count-incr;
}
