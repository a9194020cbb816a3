-- ===== src/Ai/Strip.antt =====
-- What a client gets of the events.
use flowplane.Base.{
  ℕ, zero, suc, ◌+◌, ◌-◌, ◌<◌, ◌≤◌, ◌≡◌, refl, sym, ap, false, List, [], ◌∷◌, ◌++◌, Option, none,
  length, take, drop, ltb, arith, Bool-cases, Option-cases, inl, inr,
}
use flowplane.Ai.Sse.{
  OpenAiTokenUsage, next_sse_event_end, slice, unwrap_or, or_else, strip_from,
  strip_synthetic_openai_usage_sse,
}
use flowplane.Ai.Framing.{next_sse_event_end_bound}

take-drop : (k : ℕ) (xs : List ℕ) → take k xs ++ drop k xs ≡ xs
take-drop zero xs = refl
take-drop (suc k) [] = refl
take-drop (suc k) (x ∷ xs) = ap (λ ys. x ∷ ys) (take-drop k xs)

take-nil : (k : ℕ) → take {A = ℕ} k [] ≡ []
take-nil zero = refl
take-nil (suc k) = refl

-- An event and the bytes after it make up the bytes from its start on.
slice-drop :
    (xs : List ℕ) (start end : ℕ) → start ≤ end → slice xs start end ++ drop end xs ≡ drop start xs
slice-drop xs zero end le = let whole : end - 0 ≡ end = omega arith in rw whole (take-drop end xs)
slice-drop xs (suc start) zero le = absurd (omega arith)
slice-drop [] (suc start) (suc end) le = rw (take-nil (suc end - suc start)) refl
slice-drop (x ∷ xs) (suc start) (suc end) le =
    let shift : suc end - suc start ≡ end - start = omega arith in
    rw shift (slice-drop xs start end (omega (arith, le)))

drop-all : (n : ℕ) (xs : List ℕ) → length xs ≤ n → drop n xs ≡ []
drop-all zero [] le = refl
drop-all zero (x ∷ xs) le = absurd (omega arith)
drop-all (suc n) [] le = refl
drop-all (suc n) (x ∷ xs) le = drop-all n xs (omega arith)

-- The end of the event that starts here.
end_bound :
    (bytes : List ℕ) (start : ℕ)
    → start < length bytes
    → (start < unwrap_or (next_sse_event_end bytes start) (length bytes))
      × (unwrap_or (next_sse_event_end bytes start) (length bytes) ≤ length bytes)
end_bound bytes start lt = elim (Option-cases (next_sse_event_end bytes start)) [
  | inl rest ↦ rw rest (omega arith, omega arith)
  | inr (e, found) ↦
      let bound = next_sse_event_end_bound bytes start e found in
      rw found (omega (arith, bound), omega (arith, bound))
]

module _ (usage_from_sse_event : List ℕ → Option OpenAiTokenUsage) where
  strip_from-all :
      (fuel : ℕ) (bytes : List ℕ) (start : ℕ) (usage : Option OpenAiTokenUsage)
      → length bytes ≤ start + fuel
      → (strip_from usage_from_sse_event fuel bytes false start usage).0 ≡ drop start bytes
  unfolding strip_from
  strip_from-all zero bytes start usage le = sym (drop-all start bytes (omega (arith, le)))
  strip_from-all (suc fuel) bytes start usage le = elim (Bool-cases (ltb start (length bytes))) [
    | inr past ↦ rw past (sym (drop-all start bytes (ground arith)))
    | inl inside ↦
        let end = unwrap_or (next_sse_event_end bytes start) (length bytes) in
        let bound = end_bound bytes start (ground arith) in
        let event_usage = usage_from_sse_event (slice bytes start end) in
        rw
          (
            inside,
            strip_from-all fuel bytes end (or_else event_usage usage) (omega (arith, bound, le)),
          )
          (slice-drop bytes start end (omega (arith, bound)))
  ]

  -- When the usage was not asked for by the gateway, every byte passes through.
  pub strip_synthetic_openai_usage_sse-all :
      (bytes : List ℕ)
      → (strip_synthetic_openai_usage_sse usage_from_sse_event bytes false).0 ≡ bytes
  unfolding strip_synthetic_openai_usage_sse
  strip_synthetic_openai_usage_sse-all bytes =
      strip_from-all (length bytes) bytes 0 none (omega arith)
