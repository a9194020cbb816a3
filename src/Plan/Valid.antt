-- ===== src/Plan/Valid.antt =====
-- The names that `normalize_name` makes are names.
use flowplane.Base.{
  ℕ, zero, suc, ◌≤◌, ◌≡◌, refl, inl, inr, Bool, true, false, ◌&&◌, Bool-cases, [], ◌∷◌, ◌++◌, Text,
  All, take, length, is_empty, as_bytes, encode_utf8, trim_end, ltb, All-append, ends_with_char,
  is_ascii_alphanumeric, is_ascii_uppercase, nat_eq, if◌then◌else◌, arith,
}
use flowplane.Domain.Error.{ok}
use flowplane.Domain.Name.{
  hyphen, is_lowercase, is_lowercase_or_digit, valid_body, valid_start, ends_with, validate_name,
}
use flowplane.Plan.Names.{
  push, push_all, trim_lead, or_generated, with_letter, lowered, normalize_name,
}

valid_body-append :
    (prev : Bool) (s : Text) (c : ℕ)
    → is_lowercase_or_digit c ≡ true
    → valid_body prev s ≡ true
    → valid_body prev (s ++ c ∷ []) ≡ true
unfolding valid_body
valid_body-append prev [] c plain h = ground arith
valid_body-append prev (d ∷ s) c plain h =
    ground (arith, valid_body-append (nat_eq d hyphen) s c plain)

valid_body-append_hyphen :
    (prev : Bool) (s : Text)
    → ends_with_char hyphen s ≡ false
    → (prev && is_empty s) ≡ false
    → valid_body prev s ≡ true
    → valid_body prev (s ++ hyphen ∷ []) ≡ true
unfolding valid_body
valid_body-append_hyphen prev [] e p h = ground arith
valid_body-append_hyphen prev (d ∷ []) e p h = ground arith
valid_body-append_hyphen prev (d ∷ c ∷ s) e p h =
    let rest = valid_body-append_hyphen (nat_eq d hyphen) (c ∷ s) e (ground arith) in
    ground (arith, rest)

abbrev NotUpper : ℕ → Type 0
NotUpper c = is_ascii_uppercase c ≡ false

push-valid :
    (out : Text) (c : ℕ)
    → NotUpper c
    → valid_body false out ≡ true
    → valid_body false (push out c) ≡ true
unfolding push
push-valid out c low h = elim (Bool-cases (is_ascii_alphanumeric c)) [
  | inl plain ↦ rw plain (valid_body-append false out c (ground arith) h)
  | inr other ↦ rw other (elim (Bool-cases (ends_with_char hyphen out)) [
    | inl ends ↦ rw ends h
    | inr new ↦ rw new (valid_body-append_hyphen false out new refl h)
  ])
]

push_all-valid :
    (out cs : Text)
    → All NotUpper cs
    → valid_body false out ≡ true
    → valid_body false (push_all out cs) ≡ true
unfolding push_all
push_all-valid out [] low h = h
push_all-valid out (c ∷ cs) (here, low) h =
    push_all-valid (push out c) cs low (push-valid out c here h)

-- What starts with a letter or a digit, if with anything.
abbrev starts_plain : Text → Bool
starts_plain [] = true
starts_plain (c ∷ s) = is_lowercase_or_digit c

trim_lead-valid :
    (prev : Bool) (s : Text)
    → valid_body prev s ≡ true
    → (valid_body false (trim_lead hyphen s) ≡ true) × (starts_plain (trim_lead hyphen s) ≡ true)
unfolding trim_lead valid_body
trim_lead-valid prev [] h = (refl, refl)
trim_lead-valid prev (d ∷ s) h =
    let rest = trim_lead-valid (nat_eq d hyphen) s in
    elim (Bool-cases (nat_eq d hyphen)) [
      | inl dash ↦ rw dash (rest (ground arith))
      | inr other ↦ rw other (ground arith, ground arith)
    ]

take-valid :
    (n : ℕ) (prev : Bool) (s : Text) → valid_body prev s ≡ true → valid_body prev (take n s) ≡ true
unfolding valid_body
take-valid zero prev s h = refl
take-valid (suc n) prev [] h = refl
take-valid (suc n) prev (d ∷ s) h = ground (arith, take-valid n (nat_eq d hyphen) s)

-- What is left of a name when its last hyphens are gone.
record Trimmed (prev : Bool) (s t : Text) : Type 0 where
  valid : valid_body prev s ≡ true → valid_body prev t ≡ true
  ends : ends_with t hyphen ≡ false
  short : length t ≤ length s
  start : valid_start s ≡ true → valid_start t ≡ true
  plain : starts_plain s ≡ true → starts_plain t ≡ true

trim_end-Trimmed : (prev : Bool) (s : Text) → Trimmed prev s (trim_end hyphen s)
unfolding trim_end valid_body
trim_end-Trimmed prev [] = record {
  valid = λ h. h;
  ends = refl;
  short = omega arith;
  start = λ h. h;
  plain = λ h. h;
}
trim_end-Trimmed prev (d ∷ s) = grown (trim_end hyphen s) (trim_end-Trimmed (nat_eq d hyphen) s)
  where
    grown :
        (t : Text)
        → Trimmed (nat_eq d hyphen) s t
        → Trimmed prev
            (d ∷ s)
            (elim t [ [] ↦ if nat_eq d hyphen then [] else d ∷ [] | e ∷ rest ↦ d ∷ e ∷ rest ])
    grown [] r = elim (Bool-cases (nat_eq d hyphen)) [
      | inl dash ↦ rw dash record {
        valid = λ h. refl;
        ends = refl;
        short = omega arith;
        start = λ h. ground arith;
        plain = λ h. refl;
      }
      | inr other ↦ rw other record {
        valid = λ h. ground arith;
        ends = other;
        short = omega arith;
        start = λ h. h;
        plain = λ h. h;
      }
    ]
    grown (e ∷ rest) r = record {
      valid = λ h. ground (arith, r.valid);
      ends = r.ends;
      short = omega (arith, r.short);
      start = λ h. h;
      plain = λ h. h;
    }

as_bytes-valid : (prev : Bool) (s : Text) → valid_body prev s ≡ true → as_bytes s ≡ s
unfolding as_bytes encode_utf8 valid_body
as_bytes-valid prev [] h = refl
as_bytes-valid prev (c ∷ s) h =
    let rest = as_bytes-valid (nat_eq c hyphen) s (ground arith) in ground (arith, rest)

length-take_le : (n : ℕ) (s : Text) → length (take n s) ≤ n
length-take_le zero s = omega arith
length-take_le (suc n) [] = omega arith
length-take_le (suc n) (c ∷ s) = omega (arith, length-take_le n s)

or_generated-valid :
    (s : Text)
    → valid_body false s ≡ true
    → starts_plain s ≡ true
    → (valid_body false (or_generated s) ≡ true)
      × (starts_plain (or_generated s) ≡ true)
      × (is_empty (or_generated s) ≡ false)
unfolding or_generated valid_body
or_generated-valid [] v p = (refl, refl, refl)
or_generated-valid (c ∷ s) v p = (v, p, refl)

with_letter-valid :
    (s : Text)
    → valid_body false s ≡ true
    → starts_plain s ≡ true
    → is_empty s ≡ false
    → (valid_body false (with_letter s) ≡ true) × (valid_start (take 100 (with_letter s)) ≡ true)
unfolding with_letter valid_body
with_letter-valid [] v p e = cc
with_letter-valid (c ∷ s) v p e = elim (Bool-cases (is_lowercase c)) [
  | inl letter ↦ rw letter (v, letter)
  | inr digit ↦ rw digit (ground arith, refl)
]

not_longer : (n : ℕ) → n ≤ 100 → ltb 100 n ≡ false
not_longer n le = ground arith

passes_name :
    (name : Text)
    → as_bytes name ≡ name
    → valid_start name ≡ true
    → valid_body false name ≡ true
    → ends_with name hyphen ≡ false
    → length name ≤ 100
    → validate_name name ≡ ok tt
unfolding validate_name
passes_name [] ascii start v e short = cc
passes_name (c ∷ name) ascii start v e short =
    rw (ascii, not_longer (length (c ∷ name)) short, v, e, start) refl

accepted :
    (s : Text)
    → valid_body false s ≡ true
    → valid_start s ≡ true
    → length s ≤ 100
    → validate_name (trim_end hyphen s) ≡ ok tt
accepted s v start short =
    let r = trim_end-Trimmed false s in
    passes_name (trim_end hyphen s) (as_bytes-valid false (trim_end hyphen s) (r.valid v))
      (r.start start) (r.valid v) r.ends (omega (arith, r.short))

module _ (to_lowercase : ℕ → Text) (low : (c : ℕ) → All NotUpper (to_lowercase c)) where
  lowered-NotUpper : (raw : Text) → All NotUpper (lowered to_lowercase raw)
  unfolding lowered
  lowered-NotUpper [] = tt
  lowered-NotUpper (c ∷ raw) =
      All-append NotUpper (to_lowercase c) (lowered to_lowercase raw) (low c) (lowered-NotUpper raw)

  -- Every text comes to a name that the name rule accepts, if lower case has no ASCII capitals.
  pub normalize_name-valid : (raw : Text) → validate_name (normalize_name to_lowercase raw) ≡ ok tt
  unfolding normalize_name validate_name valid_body
  normalize_name-valid raw =
      let (v, p) =
        trim_lead-valid false (push_all [] (lowered to_lowercase raw))
          (push_all-valid [] (lowered to_lowercase raw) (lowered-NotUpper raw) refl) in
      let t = trim_end-Trimmed false (trim_lead hyphen (push_all [] (lowered to_lowercase raw))) in
      let (v2, p2, full) = or_generated-valid _ (t.valid v) (t.plain p) in
      let name = with_letter (
        or_generated
          (trim_end hyphen (trim_lead hyphen (push_all [] (lowered to_lowercase raw))))) in
      let (v3, s3) = with_letter-valid _ v2 p2 full in
      accepted (take 100 name) (take-valid 100 false name v3) s3 (length-take_le 100 name)
