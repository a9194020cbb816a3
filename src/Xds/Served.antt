-- ===== src/Xds/Served.antt =====
-- What holds of a type's serving state after every operation.
use mathlib.Core.List.{Memᴰ}
use flowplane.Base.{
  ◌≡◌, ◌≢◌, refl, inl, inr, true, ◌&&◌, List, [], ◌∷◌, some, Text, Dict, insert, ◌==◌, List-Eq,
  ℕ-Eq, All, All-retain, All-retain_self, All-map, All-insert, Bool-cases, Option-cases,
  any_complete, arith, is_empty,
}
use flowplane.Base.SortedMap.{text_eq_iff}
use flowplane.Xds.Resource.{Any, NamedResource, resources_eq_iff}
use flowplane.Xds.Quarantine.{
  Quarantined, TypeInternal, default, serve_one, filter_map, recompute_served, is_current,
  rotate_raw, prune, install_raw_with_failures, of_name, to_quarantine, entry_for,
  quarantine_changed, apply_nack,
}

-- The last good bytes of an entry are not the rejected ones.
abbrev pub IsSafe : Text × Quarantined → Type 0
IsSafe (name, q) = (good : Any) → q.last_good ≡ some good → good.value ≢ q.offending

-- The served set is what the quarantine makes of the current generation; every entry is about a
-- resource of that generation, and does not fall back to the bytes it keeps out.
pub record IsWell (st : TypeInternal) : Type 0 where
  pub current : st.served ≡ filter_map (serve_one st.quarantine) st.raw
  pub pruned : All (λ e. is_current st.raw e ≡ true) st.quarantine
  pub safe : All IsSafe st.quarantine

-- The initial state is well formed.
pub default-IsWell : IsWell default
default-IsWell = record { current = refl; pruned = tt; safe = tt }

pub recompute_served-served :
    (st : TypeInternal)
    → (recompute_served st).0.served ≡ filter_map (serve_one st.quarantine) st.raw
unfolding recompute_served
recompute_served-served st =
    ground (arith, resources_eq_iff (filter_map (serve_one st.quarantine) st.raw) st.served)

recompute_served-same :
    (st : TypeInternal)
    → ((recompute_served st).0.raw ≡ st.raw)
      × ((recompute_served st).0.raw_prev ≡ st.raw_prev)
      × ((recompute_served st).0.quarantine ≡ st.quarantine)
unfolding recompute_served
recompute_served-same st = (ground arith, ground arith, ground arith)

recompute_served-IsWell :
    (st : TypeInternal)
    → All (λ e. is_current st.raw e ≡ true) st.quarantine
    → All IsSafe st.quarantine
    → IsWell (recompute_served st).0
recompute_served-IsWell st p s =
    let (r, _, q) = recompute_served-same st in
    record { current = rw (r, q) (recompute_served-served st); pruned = rw (r, q) p; safe = rw q s }

rotate_raw-quarantine :
    (st : TypeInternal) (fresh : List NamedResource) (failures : Dict Text Text)
    → (rotate_raw st fresh failures).quarantine ≡ st.quarantine
unfolding rotate_raw
rotate_raw-quarantine st fresh failures = ground arith

prune-IsWell :
    (st : TypeInternal) → All IsSafe st.quarantine → IsWell (recompute_served (prune st)).0
unfolding prune
prune-IsWell st s =
    recompute_served-IsWell (prune st) (All-retain_self (is_current st.raw) st.quarantine)
      (All-retain IsSafe (is_current st.raw) st.quarantine s)

-- Installing a generation keeps the state well formed.
pub install_raw_with_failures-IsWell :
    (st : TypeInternal) (fresh : List NamedResource) (failures : Dict Text Text)
    → IsWell st
    → IsWell (install_raw_with_failures st fresh failures).0
unfolding install_raw_with_failures
install_raw_with_failures-IsWell st fresh failures w =
    prune-IsWell (rotate_raw st fresh failures)
      (rw (rotate_raw-quarantine st fresh failures) w.safe)

entry_for-IsSafe :
    (prev : List NamedResource) (quarantine : Dict Text Quarantined) (error : Text)
    (r : NamedResource)
    → to_quarantine prev quarantine r ≡ true
    → IsSafe (r.name, entry_for prev error r)
unfolding to_quarantine
entry_for-IsSafe prev quarantine error r h good e = elim (Option-cases (of_name r.name prev)) [
  | inl missing ↦ ground arith
  | inr (p, found) ↦ λ same. ground (arith, text_eq_iff p.any.value r.any.value)
]

module _ (prev : List NamedResource) (error : Text) where
  quarantine_changed-IsSafe :
      (quarantine : Dict Text Quarantined) (rs : List NamedResource)
      → All IsSafe quarantine
      → All IsSafe (quarantine_changed prev error quarantine rs).0
  unfolding quarantine_changed
  quarantine_changed-IsSafe quarantine [] s = s
  quarantine_changed-IsSafe quarantine (r ∷ rs) s =
      elim (Bool-cases (to_quarantine prev quarantine r)) [
        | inl hit ↦ rw hit (
            quarantine_changed-IsSafe (insert r.name (entry_for prev error r) quarantine) rs (
              All-insert IsSafe r.name (entry_for prev error r) quarantine
                (entry_for-IsSafe prev quarantine error r hit) s))
        | inr miss ↦ rw miss (quarantine_changed-IsSafe quarantine rs s)
      ]

  quarantine_changed-pruned :
      (raw : List NamedResource) (quarantine : Dict Text Quarantined) (rs : List NamedResource)
      → All (λ r. Memᴰ r raw) rs
      → All (λ e. is_current raw e ≡ true) quarantine
      → All (λ e. is_current raw e ≡ true) (quarantine_changed prev error quarantine rs).0
  unfolding quarantine_changed
  quarantine_changed-pruned raw quarantine [] m p = p
  quarantine_changed-pruned raw quarantine (r ∷ rs) (m, ms) p =
      elim (Bool-cases (to_quarantine prev quarantine r)) [
        | inl hit ↦ rw hit (
            quarantine_changed-pruned raw (insert r.name (entry_for prev error r) quarantine) rs ms
              (All-insert (λ e. is_current raw e ≡ true) r.name (entry_for prev error r) quarantine
                (itself r m) p))
        | inr miss ↦ rw miss (quarantine_changed-pruned raw quarantine rs ms p)
      ]
    where
      itself :
          (r : NamedResource) → Memᴰ r raw → is_current raw (r.name, entry_for prev error r) ≡ true
      itself r m =
          any_complete (λ s. s.name == r.name && s.any.value == r.any.value) raw m
            (ground (arith, text_eq_iff r.name r.name, text_eq_iff r.any.value r.any.value))

pub All-self : (rs : List NamedResource) → All (λ r. Memᴰ r rs) rs
All-self [] = tt
All-self (r ∷ rs) = (Memᴰ.head refl, All-map rs (λ s m. Memᴰ.tail m) (All-self rs))

-- With nobody named the loop leaves the quarantine as it is.
quarantine_changed-nobody :
    (prev : List NamedResource) (error : Text) (quarantine : Dict Text Quarantined)
    (rs : List NamedResource)
    → is_empty (quarantine_changed prev error quarantine rs).1 ≡ true
    → (quarantine_changed prev error quarantine rs).0 ≡ quarantine
unfolding quarantine_changed
quarantine_changed-nobody prev error quarantine [] h = refl
quarantine_changed-nobody prev error quarantine (r ∷ rs) h =
    elim (Bool-cases (to_quarantine prev quarantine r)) [
      | inl hit ↦ ground arith
      | inr miss ↦ rw miss (quarantine_changed-nobody prev error quarantine rs (ground arith))
    ]

-- A rejection keeps the state well formed.
pub apply_nack-IsWell :
    (st : TypeInternal) (error : Text) → IsWell st → IsWell (apply_nack st error).0
unfolding apply_nack
apply_nack-IsWell st error w = elim (Bool-cases (is_empty st.raw_prev)) [
  | inl first ↦ rw first w
  | inr later ↦
      elim (Bool-cases (is_empty (quarantine_changed st.raw_prev error st.quarantine st.raw).1)) [
        | inl nobody ↦
            rw
              (
                later,
                nobody,
                quarantine_changed-nobody st.raw_prev error st.quarantine st.raw nobody,
              )
              w
        | inr some_names ↦
            rw (later, some_names)
              (recompute_served-IsWell
                (record st {
                  quarantine = (quarantine_changed st.raw_prev error st.quarantine st.raw).0;
                })
                (quarantine_changed-pruned st.raw_prev error st.raw st.quarantine st.raw
                  (All-self st.raw) w.pruned)
                (quarantine_changed-IsSafe st.raw_prev error st.quarantine st.raw w.safe))
      ]
]
