-- ===== src/Outbox/Delivery.antt =====
-- What a consumer has handled after a run of batches and appends.
use flowplane.Base.{
  ℕ, ◌≤◌, ◌≡◌, ◌∙◌, refl, Bool, true, false, List, [], ◌∷◌, ap, map, retain, Option, none, some,
  Text, lookup, lookup-insert_self, List-Eq, ℕ-Eq, arith,
}
use flowplane.Domain.Error.{DomainResult, ok, err, ◌>>=◌}
use flowplane.Outbox.Store.{
  Row, StoredEvent, Store, Batch, max_seq, stored, parsed, parse_rows, batch_rows, committed,
  handle, process_rows, from_cursor, process_batch,
}
use flowplane.Outbox.Order.{range, IsAbove, range_self, batch_rows-range, batch_rows-le}

-- A batch counts as handled when it is answered with success.
abbrev pub accepted {ℓ} : {A : Type ℓ} → DomainResult ℕ → List A → List A
accepted (ok count) events = events
accepted (err e) events = []

module _ {Json Event : Type 0} (from_value : Json → Option Event) where
  abbrev Matches : List (Row Json) → DomainResult (List (StoredEvent Json Event)) → Type 0
  Matches rows (err e) = Unit
  Matches rows (ok events) = map (λ e. e.seq) events ≡ map (λ r. r.seq) rows

  parsed-Matches :
      (r : Row Json) (o : Option Event) (rows : List (Row Json))
      (rest : DomainResult (List (StoredEvent Json Event)))
      → Matches rows rest
      → Matches (r ∷ rows) (parsed from_value r o rest)
  unfolding parsed stored
  parsed-Matches r none rows rest h = tt
  parsed-Matches r (some event) rows (err e) h = tt
  parsed-Matches r (some event) rows (ok events) h = ap (λ seqs. r.seq ∷ seqs) h

  parse_rows-Matches : (rows : List (Row Json)) → Matches rows (parse_rows from_value rows)
  unfolding parse_rows
  parse_rows-Matches [] = refl
  parse_rows-Matches (r ∷ rows) =
      parsed-Matches r (from_value r.payload) rows (parse_rows from_value rows)
        (parse_rows-Matches rows)

  -- The cursor of a consumer moves on over the rows that were handled, and over nothing else.
  pub record Advanced (consumer : Text) (s : Store Json) (last : ℕ) (b : Batch Json Event)
      : Type 0 where
    pub next : ℕ
    pub grown : last ≤ next
    pub cursor : lookup consumer b.store.cursors ≡ some next
    pub unchanged : b.store.events ≡ s.events
    pub handled :
        map (λ e. e.seq) (accepted b.answer b.delivered)
        ≡ map (λ r. r.seq) (retain (range last next) s.events)

  module _ (consumer : Text) (s : Store Json) (last : ℕ)
      (found : lookup consumer s.cursors ≡ some last) where
    -- A batch that leaves the tables as they are and is not answered with events.
    stays :
        (answer : DomainResult ℕ) (delivered : List (StoredEvent Json Event))
        → accepted answer delivered ≡ []
        → Advanced consumer s last record { store = s; answer = answer; delivered = delivered }
    stays answer delivered nothing = record {
      next = last;
      grown = omega arith;
      cursor = found;
      unchanged = refl;
      handled = rw (nothing, range_self last s.events) refl;
    }

    module _ (handler : List (StoredEvent Json Event) → DomainResult (Unit {0}))
        (commit : DomainResult (Unit {0})) where
      committed-Advanced :
          (top : ℕ) (rows : List (Row Json)) (events : List (StoredEvent Json Event))
          (result : DomainResult (Unit {0}))
          → last ≤ top
          → rows ≡ retain (range last top) s.events
          → map (λ e. e.seq) events ≡ map (λ r. r.seq) rows
          → Advanced consumer s last
              (committed from_value handler commit s consumer top events result)
      unfolding committed
      committed-Advanced top rows events (err e) le are same = stays (err e) events refl
      committed-Advanced top rows events (ok done) le are same = record {
        next = top;
        grown = le;
        cursor = lookup-insert_self consumer top s.cursors;
        unchanged = refl;
        handled = same ∙ ap (map (λ r. r.seq)) are;
      }

      handle-Advanced :
          (top : ℕ) (rows : List (Row Json)) (read : DomainResult (List (StoredEvent Json Event)))
          → last ≤ top
          → rows ≡ retain (range last top) s.events
          → Matches rows read
          → Advanced consumer s last (handle from_value handler commit s consumer top read)
      unfolding handle
      handle-Advanced top rows (err e) le are same = stays (err e) [] refl
      handle-Advanced top rows (ok events) le are same =
          committed-Advanced top rows events (handler events >>= (λ done. commit)) le are same

      process_rows-Advanced :
          (rows : List (Row Json))
          → last ≤ max_seq last rows
          → rows ≡ retain (range last (max_seq last rows)) s.events
          → Advanced consumer s last (process_rows from_value handler commit s consumer last rows)
      unfolding process_rows
      process_rows-Advanced [] le are = stays (ok 0) [] refl
      process_rows-Advanced (r ∷ rows) le are =
          handle-Advanced (max_seq last (r ∷ rows)) (r ∷ rows) (parse_rows from_value (r ∷ rows)) le
            are (parse_rows-Matches (r ∷ rows))

      pub process_batch-Advanced :
          (locked : Bool) (size : ℕ)
          → IsAbove 0 s.events
          → Advanced consumer s last
              (process_batch from_value handler commit s locked consumer size)
      unfolding process_batch from_cursor
      process_batch-Advanced true size h = stays (ok 0) [] refl
      process_batch-Advanced false size h = rw found (
          process_rows-Advanced (batch_rows last size s.events) (batch_rows-le last size s.events)
            (batch_rows-range last size s.events h))
