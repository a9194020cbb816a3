-- ===== src/Outbox/Order.antt =====
-- The rows of a batch are those between the old cursor and the new one.
use flowplane.Base.{
  ℕ, zero, suc, ◌≤◌, ◌<◌, ◌≡◌, ◌∙◌, sym, subst, refl, inl, inr, Bool, ◌&&◌, Bool-cases, List, [],
  ◌∷◌, ◌++◌, retain, take, ltb, leb, if◌then◌else◌, arith,
}
use flowplane.Outbox.Store.{Row, max_seq, batch_rows}

module _ {Json : Type 0} where
  -- After one cursor, and up to another.
  abbrev pub range : ℕ → ℕ → Row Json → Bool
  range after upto r = ltb after r.seq && leb r.seq upto

  -- Ordered, and all above a number.
  abbrev pub IsAbove : ℕ → List (Row Json) → Type 0
  IsAbove n [] = Unit
  IsAbove n (r ∷ rows) = n < r.seq × IsAbove r.seq rows

  weaken : (m n : ℕ) (rows : List (Row Json)) → m ≤ n → IsAbove n rows → IsAbove m rows
  weaken m n [] le h = tt
  weaken m n (r ∷ rows) le (h, hs) = (omega arith, hs)

  IsAbove-retain :
      (p : Row Json → Bool) (n : ℕ) (rows : List (Row Json))
      → IsAbove n rows
      → IsAbove n (retain p rows)
  IsAbove-retain p n [] h = tt
  IsAbove-retain p n (r ∷ rows) (h, hs) = elim (Bool-cases (p r)) [
    | inl keep ↦ rw keep (h, IsAbove-retain p r.seq rows hs)
    | inr gone ↦
        rw gone (weaken n r.seq (retain p rows) (omega arith) (IsAbove-retain p r.seq rows hs))
  ]

  IsAbove-cursor :
      (last n : ℕ) (rows : List (Row Json))
      → IsAbove n rows
      → IsAbove last (retain (λ r. ltb last r.seq) rows)
  IsAbove-cursor last n [] h = tt
  IsAbove-cursor last n (r ∷ rows) (h, hs) = elim (Bool-cases (ltb last r.seq)) [
    | inl keep ↦ rw keep (ground arith, IsAbove-retain (λ r. ltb last r.seq) r.seq rows hs)
    | inr gone ↦ rw gone (IsAbove-cursor last r.seq rows hs)
  ]

  nothing_below :
      (after upto n : ℕ) (rows : List (Row Json))
      → upto ≤ n
      → IsAbove n rows
      → retain (range after upto) rows ≡ []
  nothing_below after upto n [] le h = refl
  nothing_below after upto n (r ∷ rows) le (h, hs) =
      ground (arith, nothing_below after upto r.seq rows (omega arith) hs)

  pub range_self : (last : ℕ) (rows : List (Row Json)) → retain (range last last) rows ≡ []
  range_self last [] = refl
  range_self last (r ∷ rows) = ground (arith, range_self last rows)

  max_seq_le : (top : ℕ) (rows : List (Row Json)) → top ≤ max_seq top rows
  unfolding max_seq
  max_seq_le top [] = omega arith
  max_seq_le top (r ∷ rows) = ground (arith, max_seq_le (if ltb top r.seq then r.seq else top) rows)

  max_seq_cons :
      (n : ℕ) (r : Row Json) (rows : List (Row Json))
      → n < r.seq
      → max_seq n (r ∷ rows) ≡ max_seq r.seq rows
  unfolding max_seq
  max_seq_cons n r rows lt = ground arith

  cons_range :
      (after upto : ℕ) (r : Row Json) (rows : List (Row Json)) {xs : List (Row Json)}
      → after < r.seq
      → r.seq ≤ upto
      → xs ≡ retain (range after upto) rows
      → (r ∷ xs) ≡ retain (range after upto) (r ∷ rows)
  cons_range after upto r rows lt le e = ground (arith, e)

  take-range :
      (size after n : ℕ) (rows : List (Row Json))
      → after ≤ n
      → IsAbove n rows
      → take size rows ≡ retain (range after (max_seq n (take size rows))) rows
  unfolding max_seq
  take-range zero after n rows le h = sym (nothing_below after n n rows (omega arith) h)
  take-range (suc size) after n [] le h = refl
  take-range (suc size) after n (r ∷ rows) le (h, hs) =
      subst (λ top. (r ∷ take size rows) ≡ retain (range after top) (r ∷ rows))
        (sym (max_seq_cons n r (take size rows) h))
        (cons_range after _ r rows (omega arith) (max_seq_le r.seq (take size rows))
          (take-range size after r.seq rows (omega arith) hs))

  retain-range :
      (last upto : ℕ) (rows : List (Row Json))
      → retain (range last upto) (retain (λ r. ltb last r.seq) rows) ≡ retain (range last upto) rows
  retain-range last upto [] = refl
  retain-range last upto (r ∷ rows) = ground (arith, retain-range last upto rows)

  pub batch_rows-range :
      (last size : ℕ) (events : List (Row Json))
      → IsAbove 0 events
      → batch_rows last size events
        ≡ retain (range last (max_seq last (batch_rows last size events))) events
  unfolding batch_rows
  batch_rows-range last size events h =
      let after = retain (λ r. ltb last r.seq) events in
      take-range size last last after (omega arith) (IsAbove-cursor last 0 events h)
      ∙ retain-range last (max_seq last (take size after)) events

  pub batch_rows-le :
      (last size : ℕ) (events : List (Row Json)) → last ≤ max_seq last (batch_rows last size events)
  batch_rows-le last size events = max_seq_le last (batch_rows last size events)

  same_above :
      (low after upto n : ℕ) (rows : List (Row Json))
      → low ≤ after
      → after ≤ n
      → IsAbove n rows
      → retain (range after upto) rows ≡ retain (range low upto) rows
  same_above low after upto n [] le le2 h = refl
  same_above low after upto n (r ∷ rows) le le2 (h, hs) =
      ground (arith, same_above low after upto r.seq rows le (omega arith) hs)

  -- Two ranges that meet.
  pub range_join :
      (low mid high n : ℕ) (rows : List (Row Json))
      → low ≤ mid
      → mid ≤ high
      → IsAbove n rows
      → (retain (range low mid) rows ++ retain (range mid high) rows) ≡ retain (range low high) rows
  range_join low mid high n [] le le2 h = refl
  range_join low mid high n (r ∷ rows) le le2 (h, hs) = elim (Bool-cases (leb r.seq mid)) [
    | inl under ↦ ground (arith, range_join low mid high r.seq rows le le2 hs)
    | inr over ↦
        let none_here = nothing_below low mid r.seq rows (ground arith) hs in
        let rest = same_above low mid high r.seq rows le (ground arith) hs in
        ground (arith, none_here, rest)
  ]
