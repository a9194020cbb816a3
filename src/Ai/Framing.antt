-- ===== src/Ai/Framing.antt =====
-- Where an event ends does not depend on what arrives later.
use flowplane.Base.{
  ℕ, zero, suc, ◌+◌, ◌-◌, ◌<◌, ◌≤◌, ◌≡◌, ◌≢◌, ◌⊎◌, refl, ap, subst, false, List, [], ◌∷◌, ◌++◌,
  none, some, length, get_elem?, ltb, nat_eq, arith, Bool-cases, inl, inr,
}
use flowplane.Ai.Sse.{
  cr, is_byte, sse_terminator_len, stride, next_from, next_sse_event_end, is_open,
}

pub get_elem?-append :
    (xs ys : List ℕ) (i : ℕ) → i < length xs → get_elem? (xs ++ ys) i ≡ get_elem? xs i
get_elem?-append [] ys i lt = absurd (omega arith)
get_elem?-append (x ∷ xs) ys zero lt = refl
get_elem?-append (x ∷ xs) ys (suc i) lt = get_elem?-append xs ys i (omega arith)

get_elem?-none : (xs : List ℕ) (i : ℕ) → length xs ≤ i → get_elem? xs i ≡ none
get_elem?-none [] i le = refl
get_elem?-none (x ∷ xs) zero le = absurd (omega arith)
get_elem?-none (x ∷ xs) (suc i) le = get_elem?-none xs i (omega arith)

pub length-append : (xs ys : List ℕ) → length (xs ++ ys) ≡ length xs + length ys
length-append [] ys = omega arith
length-append (x ∷ xs) ys = omega (arith, length-append xs ys)

-- A terminator lies in the buffer.
terminator_bound :
    (bytes : List ℕ) (i : ℕ)
    → (sse_terminator_len bytes i ≡ 0) ⊎ (i + sse_terminator_len bytes i ≤ length bytes)
unfolding sse_terminator_len
terminator_bound bytes i = elim (Bool-cases (ltb i (length bytes))) [
  | inr past ↦ inl (rw (get_elem?-none bytes i (ground arith)) refl)
  | inl here ↦ elim (Bool-cases (ltb (i + 1) (length bytes))) [
    | inl next ↦ inr (ground arith)
    | inr end ↦ inr (rw (get_elem?-none bytes (i + 1) (ground arith)) (ground arith))
  ]
]

-- More bytes change a terminator only if the buffer ends with a `\r` there.
terminator-append :
    (bytes more : List ℕ) (i : ℕ)
    → i < length bytes
    → (i + 1 ≢ length bytes) ⊎ (is_byte (get_elem? bytes i) cr ≡ false)
    → sse_terminator_len (bytes ++ more) i ≡ sse_terminator_len bytes i
unfolding sse_terminator_len
terminator-append bytes more i lt (inl ne) =
    rw (get_elem?-append bytes more i lt, get_elem?-append bytes more (i + 1) (omega arith)) refl
terminator-append bytes more i lt (inr plain) = rw (get_elem?-append bytes more i lt, plain) refl

-- An event ends in the buffer, and after its start.
next_from_bound :
    (fuel : ℕ) (bytes : List ℕ) (i e : ℕ)
    → next_from fuel bytes i ≡ some e
    → (i + 2 ≤ e) × (e ≤ length bytes)
unfolding next_from
next_from_bound zero bytes i e h = cc
next_from_bound (suc fuel) bytes i e h =
    let first = sse_terminator_len bytes i in
    ground
      (arith, terminator_bound bytes (i + first), next_from_bound fuel bytes (i + stride first) e)

terminator-none :
    (bytes : List ℕ) (i : ℕ)
    → sse_terminator_len bytes i ≡ 0
    → is_byte (get_elem? bytes i) cr ≡ false
unfolding sse_terminator_len
terminator-none bytes i h = ground arith

-- The terminator that closes an event keeps its length, unless it is a lone `\r` at the end.
terminator-closing :
    (bytes more : List ℕ) (j : ℕ)
    → sse_terminator_len bytes j ≢ 0
    → is_open bytes (j + sse_terminator_len bytes j) ≡ false
    → sse_terminator_len (bytes ++ more) j ≡ sse_terminator_len bytes j
terminator-closing bytes more j some_len closed =
    elim (Bool-cases (nat_eq (j + 1) (length bytes))) [
      | inr inside ↦
          terminator-append bytes more j (ground (arith, terminator_bound bytes j))
            (inl (ground arith))
      | inl last ↦
          let one : sse_terminator_len bytes j ≡ 1 = ground (arith, terminator_bound bytes j) in
          let back : j + sse_terminator_len bytes j - 1 ≡ j = omega (arith, one) in
          terminator-append bytes more j (ground (arith, terminator_bound bytes j))
            (inr (ground (arith, one, ap (λ k. is_byte (get_elem? bytes k) cr) back)))
    ]

-- Later bytes do not move the end of an event, unless a lone `\r` at the end of the buffer closes it.
next_from-append :
    (fuel fuel' : ℕ) (bytes more : List ℕ) (i e : ℕ)
    → fuel ≤ fuel'
    → next_from fuel bytes i ≡ some e
    → is_open bytes e ≡ false
    → next_from fuel' (bytes ++ more) i ≡ some e
unfolding next_from
next_from-append zero fuel' bytes more i e le h o = cc
next_from-append (suc fuel) zero bytes more i e le h o = absurd (omega arith)
next_from-append (suc fuel) (suc fuel') bytes more i e le h o =
    let first = sse_terminator_len bytes i in
    let inside : i < length bytes = ground arith in
    let longer = length-append bytes more in
    let rest = next_from-append fuel fuel' bytes more (i + stride first) e (omega (arith, le)) in
    elim (Bool-cases (nat_eq first 0)) [
      | inl nothing ↦
          let zero_len : first ≡ 0 = ground arith in
          let same =
            terminator-append bytes more i inside (inr (terminator-none bytes i zero_len)) in
          ground (arith, same, longer, rest)
      | inr some_first ↦ elim (Bool-cases (nat_eq (sse_terminator_len bytes (i + first)) 0)) [
        | inl one_line ↦
            let bound = next_from_bound fuel bytes (i + stride first) e (ground arith) in
            let not_last : i + 1 ≢ length bytes = ground (arith, bound) in
            let same = terminator-append bytes more i inside (inl not_last) in
            let zero_len : sse_terminator_len bytes (i + first) ≡ 0 = ground arith in
            let same_next =
              terminator-append bytes more (i + first) (ground (arith, bound))
                (inr (terminator-none bytes (i + first) zero_len)) in
            ground (arith, same, same_next, longer, rest)
        | inr second ↦
            let j = i + first in
            let ends : e ≡ j + sse_terminator_len bytes j = ground arith in
            let second_len : sse_terminator_len bytes j ≢ 0 = ground arith in
            let same_next =
              terminator-closing bytes more j second_len
                (subst (λ k. is_open bytes k ≡ false) ends o) in
            let not_last : i + 1 ≢ length bytes = ground (arith, terminator_bound bytes j) in
            let same = terminator-append bytes more i inside (inl not_last) in
            ground (arith, same, same_next, longer, ends)
      ]
    ]

pub next_sse_event_end_bound :
    (bytes : List ℕ) (i e : ℕ)
    → next_sse_event_end bytes i ≡ some e
    → (i + 2 ≤ e) × (e ≤ length bytes)
unfolding next_sse_event_end
next_sse_event_end_bound bytes i e = next_from_bound (length bytes - i) bytes i e

-- Bytes that arrive later do not move the end of an event, unless a lone `\r` at the end of the buffer
-- closes it.
pub next_sse_event_end-append :
    (bytes more : List ℕ) (i e : ℕ)
    → next_sse_event_end bytes i ≡ some e
    → is_open bytes e ≡ false
    → next_sse_event_end (bytes ++ more) i ≡ some e
unfolding next_sse_event_end
next_sse_event_end-append bytes more i e =
    next_from-append (length bytes - i) (length (bytes ++ more) - i) bytes more i e
      (omega (arith, length-append bytes more))
