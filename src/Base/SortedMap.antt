-- ===== src/Base/SortedMap.antt =====
-- `BTreeMap<String, String>`: a list of pairs in the order of the keys. Rust orders strings by their
-- UTF-8 bytes, which is the order by characters.
use flowplane.Base.Tests.{ltb, nat_eq, if◌then◌else◌}
use flowplane.Base.Equality.{◌==◌, List-Eq, ℕ-Eq, list_eq, list_eq_iff}
use flowplane.Base.Lists.{any}
use flowplane.Base.Chars.{Text}
use mathlib.Core.Path.{◌≡◌, refl}
use mathlib.Core.Logic.{◌≢◌, ◌↔◌, ◌⊎◌, inl, inr}
use mathlib.Core.Bool.{Bool, true, false}
use mathlib.Core.List.{List, [], ◌∷◌}
use native.Mathlib.Omega.{arith}

unfoldable pub text_lt : Text → Text → Bool
text_lt [] [] = false
text_lt [] (d ∷ t) = true
text_lt (c ∷ s) [] = false
text_lt (c ∷ s) (d ∷ t) = if ltb c d then true else if nat_eq c d then text_lt s t else false

pub text_eq_iff : (s t : Text) → (list_eq nat_eq s t ≡ true) ↔ (s ≡ t)
text_eq_iff s t = list_eq_iff ℕ-Eq s t

pub text_lt_total : (s t : Text) → (text_lt s t ≡ true) ⊎ (text_lt t s ≡ true) ⊎ (s ≡ t)
unfolding text_lt
text_lt_total [] [] = inr (inr refl)
text_lt_total [] (d ∷ t) = inl refl
text_lt_total (c ∷ s) [] = inr (inl refl)
text_lt_total (c ∷ s) (d ∷ t) = ground (arith, text_lt_total s t)

pub text_lt_asymm : (s t : Text) → text_lt s t ≡ true → text_lt t s ≡ false
unfolding text_lt
text_lt_asymm [] [] h = cc
text_lt_asymm [] (d ∷ t) h = refl
text_lt_asymm (c ∷ s) [] h = cc
text_lt_asymm (c ∷ s) (d ∷ t) h = ground (arith, text_lt_asymm s t)

pub text_lt_trans : (s t u : Text) → text_lt s t ≡ true → text_lt t u ≡ true → text_lt s u ≡ true
unfolding text_lt
text_lt_trans [] [] u h k = cc
text_lt_trans [] (d ∷ t) [] h k = cc
text_lt_trans [] (d ∷ t) (e ∷ u) h k = refl
text_lt_trans (c ∷ s) [] u h k = cc
text_lt_trans (c ∷ s) (d ∷ t) [] h k = cc
text_lt_trans (c ∷ s) (d ∷ t) (e ∷ u) h k = ground (arith, text_lt_trans s t u)

pub text_lt_irrefl : (s : Text) → text_lt s s ≡ false
unfolding text_lt
text_lt_irrefl [] = refl
text_lt_irrefl (c ∷ s) = ground (arith, text_lt_irrefl s)

abbrev pub SortedMap : Type 0
SortedMap = List (Text × Text)

-- `insert` replaces the value of a key that is there.
unfoldable pub insert : Text → Text → SortedMap → SortedMap
insert k v [] = (k, v) ∷ []
insert k v ((j, w) ∷ m) =
    if text_lt k j
    then (k, v) ∷ (j, w) ∷ m
    else if k == j
    then (k, v) ∷ m
    else (j, w) ∷ insert k v m

-- `insert` returned a value: the key was there.
unfoldable pub contains_key : Text → SortedMap → Bool
contains_key k m = any (λ p. p.0 == k) m

pub insert_comm :
    (k j : Text) (v w : Text) (m : SortedMap)
    → k ≢ j
    → insert k v (insert j w m) ≡ insert j w (insert k v m)
unfolding insert
insert_comm k j v w [] ne = ground (
  arith,
  text_eq_iff k j,
  text_eq_iff j k,
  text_lt_total k j,
  text_lt_asymm k j,
  text_lt_asymm j k,
)
insert_comm k j v w ((i, x) ∷ m) ne = ground (
  arith,
  text_eq_iff k j,
  text_eq_iff j k,
  text_eq_iff k i,
  text_eq_iff j i,
  text_lt_total k j,
  text_lt_asymm k j,
  text_lt_asymm j k,
  text_lt_trans k j i,
  text_lt_trans j k i,
  text_lt_irrefl k,
  text_lt_irrefl j,
  insert_comm k j v w m ne,
)
