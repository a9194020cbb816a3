-- ===== src/Domain/Checks.antt =====
-- Checks over the optional parts and the lists of a specification, as the validators of fp-domain
-- write them, and what it takes to pass a sequence of checks.
use mathlib.Core.List.{Memᴰ}
use flowplane.Base.{
  ◌≡◌, ◌↔◌, ◌⊎◌, refl, Bool, true, false, List, [], ◌∷◌, map, Option, none, some, Text, any, All,
  All-map, Bool-cases, List-Eq, ℕ-Eq, ◌==◌, list_eq_iff, inl, inr, ◌||◌, not, all, all_iff, ℕ, ltb,
  leb, ◌&&◌, nat_eq, ◌≤◌, arith,
}
use flowplane.Domain.Error.{DomainError, DomainResult, ok, err, ◌>>◌, reject_if}

-- `if let Some(a) = o { check(a)? }`.
abbrev pub if_some {ℓ} :
    {A : Type ℓ} → Option A → (A → DomainResult (Unit {0})) → DomainResult (Unit {0})
if_some none check = ok tt
if_some (some a) check = check a

-- `for a in list { check(a)? }`.
abbrev pub for_each {ℓ} :
    {A : Type ℓ} → (A → DomainResult (Unit {0})) → List A → DomainResult (Unit {0})
for_each check [] = ok tt
for_each check (a ∷ list) = check a >> for_each check list

-- Whether a `HashSet` of texts holds a key.
abbrev pub seen_before : Text → List Text → Bool
seen_before key seen = any (λ k. k == key) seen

-- A loop that rejects the second entry of a key, between two checks of the entry.
abbrev pub for_each_fresh {ℓ} :
    {A : Type ℓ}
    → (A → DomainResult (Unit {0}))
    → (A → Text)
    → DomainError
    → (A → DomainResult (Unit {0}))
    → List Text
    → List A
    → DomainResult (Unit {0})
for_each_fresh pre key duplicate post seen [] = ok tt
for_each_fresh pre key duplicate post seen (a ∷ list) = do
  pre a
  reject_if (seen_before (key a) seen) duplicate
  post a
  for_each_fresh pre key duplicate post (key a ∷ seen) list

abbrev pub Given {ℓ κ} : {A : Type ℓ} → Option A → (A → Type κ) → Type κ
Given none P = Unit
Given (some a) P = P a

-- Both of two statements, in a chain that nests to the right.
infixr 3 ◌&◌
abbrev pub ◌&◌ {ℓ κ} : Type ℓ → Type κ → Type (ℓ ⊔ κ)
P & Q = P × Q

-- No key twice.
abbrev pub Distinct : List Text → Type 0
Distinct [] = Unit
Distinct (k ∷ keys) = ¬ Memᴰ k keys × Distinct keys

module _ {ℓ κ} {P : Type ℓ} {Q : Type κ} where
  -- A sequence of checks passes when each of them does.
  pub both :
      {m k : DomainResult (Unit {0})}
      → (m ≡ ok tt) ↔ P
      → (k ≡ ok tt) ↔ Q
      → ((m >> k) ≡ ok tt) ↔ (P × Q)
  both {m = ok tt} {k = k} (f, g) (h, i) = (λ e. (f refl, h e), λ (p, q). i q)
  both {m = err e} {k = k} (f, g) (h, i) = (λ x. cc, λ (p, q). let bad = g p in cc)

module _ {ℓ} {P : Type ℓ} where
  pub passes : (b : Bool) (e : DomainError) → (b ≡ false) ↔ P → (reject_if b e ≡ ok tt) ↔ P
  passes true e (f, g) = (λ h. cc, λ p. let bad = g p in cc)
  passes false e (f, g) = (λ h. f refl, λ p. refl)

module _ {ℓ κ} {A : Type ℓ} {P : A → Type κ} {check : A → DomainResult (Unit {0})} where
  pub if_present :
      (o : Option A) → ((a : A) → (check a ≡ ok tt) ↔ P a) → (if_some o check ≡ ok tt) ↔ Given o P
  if_present none f = (λ h. tt, λ h. refl)
  if_present (some a) f = f a

  pub each :
      (list : List A)
      → ((a : A) → (check a ≡ ok tt) ↔ P a)
      → (for_each check list ≡ ok tt) ↔ All P list
  each [] f = (λ h. tt, λ h. refl)
  each (a ∷ list) f = both (f a) (each list f)

-- Keys that differ from one key and from those seen before it.
pub not_seen :
    (key : Text) (seen keys : List Text)
    → All (λ k. seen_before k (key ∷ seen) ≡ false) keys
      ↔ (¬ Memᴰ key keys × All (λ k. seen_before k seen ≡ false) keys)
not_seen key seen [] = (λ h. ((λ m. elim m [ ]), tt), λ h. tt)
not_seen key seen (k ∷ keys) =
    let (f, g) = not_seen key seen keys in
    (
      λ (h, hs).
          let (out, rest) = f hs in
          (
            λ m. elim m [
              | Memᴰ.head e ↦ ground (arith, list_eq_iff ℕ-Eq key k)
              | Memᴰ.tail m ↦ out m
            ],
            (ground arith, rest),
          ),
      λ (out, (h, hs)). (
        elim (Bool-cases (key == k)) [
          | inl same ↦ absurd (out (Memᴰ.head ((list_eq_iff ℕ-Eq key k).0 same)))
          | inr other ↦ rw (other, h) refl
        ],
        g (λ m. out (Memᴰ.tail m), hs),
      ),
    )

All-true : (keys : List Text) → All (λ k. seen_before k [] ≡ false) keys
All-true [] = tt
All-true (k ∷ keys) = (refl, All-true keys)

module _ {ℓ κ μ} {A : Type ℓ} {P : A → Type κ} {Q : A → Type μ} (pre : A → DomainResult (Unit {0}))
    (key : A → Text) (duplicate : DomainError) (post : A → DomainResult (Unit {0}))
    (pre_iff : (a : A) → (pre a ≡ ok tt) ↔ P a) (post_iff : (a : A) → (post a ≡ ok tt) ↔ Q a) where
  each_fresh_from :
      (seen : List Text) (list : List A)
      → (for_each_fresh pre key duplicate post seen list ≡ ok tt) ↔ (
          All (λ a. P a × Q a) list
          × Distinct (map key list)
          × All (λ k. seen_before k seen ≡ false) (map key list))
  each_fresh_from seen [] = (λ h. (tt, tt, tt), λ h. refl)
  each_fresh_from seen (a ∷ list) =
      let (out, back) = both (pre_iff a) (
        both (passes _ _ (λ h. h, λ h. h))
          (both (post_iff a) (each_fresh_from (key a ∷ seen) list))) in
      let (apart, together) = not_seen (key a) seen (map key list) in
      (
        λ h.
            let (p, (new, (q, (all_pass, distinct, later)))) = out h in
            let (absent, fresh) = apart later in
            (((p, q), all_pass), (absent, distinct), (new, fresh)),
        λ (((p, q), all_pass), (absent, distinct), (new, fresh)).
            back (p, (new, (q, (all_pass, distinct, together (absent, fresh))))),
      )

  -- The loop passes when both checks pass on every entry, and no key comes twice.
  pub each_fresh :
      (list : List A)
      → (for_each_fresh pre key duplicate post [] list ≡ ok tt)
        ↔ (All (λ a. P a × Q a) list × Distinct (map key list))
  each_fresh list =
      let (out, back) = each_fresh_from [] list in
      (λ h. let (p, d, _) = out h in (p, d), λ (p, d). back (p, d, All-true (map key list)))

-- A loop with one check for each entry.
pub fresh_iff {ℓ κ} :
    {A : Type ℓ} {P : A → Type κ} (pre : A → DomainResult (Unit {0})) (key : A → Text)
    (duplicate : DomainError) (pre_iff : (a : A) → (pre a ≡ ok tt) ↔ P a) (list : List A)
    → (for_each_fresh pre key duplicate (λ a. ok tt) [] list ≡ ok tt)
      ↔ (All P list × Distinct (map key list))
fresh_iff {P = P} pre key duplicate pre_iff list =
    let (out, back) =
      each_fresh {P = P} {Q = λ a. Unit {0}} pre key duplicate (λ a. ok tt) pre_iff
        (λ a. (λ h. tt, λ h. refl)) list in
    (
      λ h. let (p, d) = out h in (All-map list (λ a (here, _). here) p, d),
      λ (p, d). back (All-map list (λ a here. (here, tt)) p, d),
    )

-- Tests as statements, to be put together by the combinators.
pub is_false : (b : Bool) → (b ≡ false) ↔ (b ≡ false)
is_false b = (λ h. h, λ h. h)

pub at_most : (n max : ℕ) → (ltb max n ≡ false) ↔ (n ≤ max)
at_most n max = ground arith

pub positive : (n : ℕ) → (nat_eq n 0 ≡ false) ↔ (1 ≤ n)
positive n = ground arith

pub holds : (b : Bool) → (not b ≡ false) ↔ (b ≡ true)
holds b = ground arith

pub within :
    (min max value : ℕ)
    → (not (leb min value && leb value max) ≡ false) ↔ ((min ≤ value) × (value ≤ max))
within min max value = ground arith

pub split_or : (b c : Bool) → ((not b && not c) ≡ false) ↔ ((b ≡ true) ⊎ (c ≡ true))
split_or true c = (λ h. inl refl, λ h. refl)
split_or false c = (λ h. inr (ground arith), λ h. ground arith)

pub every_iff {ℓ} :
    {A : Type ℓ} (p : A → Bool) (list : List A)
    → (not (all p list) ≡ false) ↔ All (λ a. p a ≡ true) list
every_iff p list = let (f, g) = all_iff p list in (λ h. f (ground arith), λ h. ground (arith, g h))

-- The parts of a test that is read from the left.
module _ {ℓ κ} {P : Type ℓ} {Q : Type κ} where
  pub neither : {b c : Bool} → (b ≡ false) ↔ P → (c ≡ false) ↔ Q → ((b || c) ≡ false) ↔ (P × Q)
  neither {b = true} {c = c} (f, g) (h, i) = (λ e. cc, λ (p, q). let bad = g p in cc)
  neither {b = false} {c = c} (f, g) (h, i) = (λ e. (f refl, h e), λ (p, q). i q)

module _ {ℓ κ μ} {P : Type ℓ} {Q : Type κ} {R : Type μ} where
  pub none_of_three :
      {b c d : Bool}
      → (b ≡ false) ↔ P
      → (c ≡ false) ↔ Q
      → (d ≡ false) ↔ R
      → ((b || c || d) ≡ false) ↔ (P & Q & R)
  none_of_three f g h =
      let (out, back) = neither (neither f g) h in
      (λ e. let ((p, q), r) = out e in (p, (q, r)), λ (p, (q, r)). back ((p, q), r))

module _ {ℓ κ μ ν} {P : Type ℓ} {Q : Type κ} {R : Type μ} {S : Type ν} where
  pub none_of_four :
      {b c d e : Bool}
      → (b ≡ false) ↔ P
      → (c ≡ false) ↔ Q
      → (d ≡ false) ↔ R
      → (e ≡ false) ↔ S
      → ((b || c || d || e) ≡ false) ↔ (P & Q & R & S)
  none_of_four f g h i =
      let (out, back) = neither (none_of_three f g h) i in
      (
        λ e. let ((p, (q, r)), s) = out e in (p, (q, (r, s))),
        λ (p, (q, (r, s))). back ((p, (q, r)), s),
      )
