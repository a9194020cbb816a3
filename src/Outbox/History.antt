-- ===== src/Outbox/History.antt =====
-- The events that a consumer has handled after a history of batches, its own and those of others,
-- and of appends.
use flowplane.Base.{
  ℕ, ◌<◌, ◌≡◌, ◌≢◌, refl, inl, inr, Bool, Bool-cases, List, [], ◌∷◌, ◌++◌, map, ltb, retain, All,
  Option, none, some, Text, lookup, lookup-insert_ne, ◌==◌, List-Eq, ℕ-Eq, if◌then◌else◌, arith,
}
use flowplane.Domain.Checks.{Given}
use flowplane.Domain.Error.{DomainResult, ok, err, ◌>>=◌}
use flowplane.Outbox.Store.{
  Row, StoredEvent, Store, Batch, parse_rows, max_seq, batch_rows, committed, handle, process_rows,
  from_cursor, process_batch, append,
}
use flowplane.Outbox.Order.{range, IsAbove}
use flowplane.Outbox.Delivery.{accepted}

pub data Step (Json Event : Type 0) : Type 0 where
  attempt :
      (consumer : Text) (locked : Bool) (size : ℕ)
      (handler : List (StoredEvent Json Event) → DomainResult (Unit {0}))
      (commit : DomainResult (Unit {0}))
      → Step Json Event
  new_row : Row Json → Step Json Event

module _ {Json Event : Type 0} (from_value : Json → Option Event) where
  -- The tables after a history, whose latest step comes first.
  unfoldable pub after : Store Json → List (Step Json Event) → Store Json
  after s [] = s
  after s (attempt who locked size handler commit ∷ past) =
      (process_batch from_value handler commit (after s past) locked who size).store
  after s (new_row r ∷ past) =
      let before = after s past in record before { events = append r before.events }

  -- The sequence numbers of the events that a consumer handled, in order.
  unfoldable pub handled : Text → Store Json → List (Step Json Event) → List ℕ
  handled consumer s [] = []
  handled consumer s (attempt who locked size handler commit ∷ past) =
      let b = process_batch from_value handler commit (after s past) locked who size in
      let earlier = handled consumer s past in
      if who == consumer
      then earlier ++ map (λ e. e.seq) (accepted b.answer b.delivered)
      else earlier
  handled consumer s (new_row r ∷ past) = handled consumer s past

  -- A new row has a number of its own, and none that the cursor of the consumer has passed.
  abbrev pub IsTimely : Text → Store Json → List (Step Json Event) → Type 0
  IsTimely consumer s [] = Unit
  IsTimely consumer s (attempt who locked size handler commit ∷ past) = IsTimely consumer s past
  IsTimely consumer s (new_row r ∷ past) =
      0 < r.seq
      × All (λ q. q.seq ≢ r.seq) (after s past).events
      × Given (lookup consumer (after s past).cursors) (λ last. last < r.seq)
      × IsTimely consumer s past

pub append-IsAbove :
    {Json : Type 0} (n : ℕ) (r : Row Json) (rows : List (Row Json))
    → n < r.seq
    → All (λ q. q.seq ≢ r.seq) rows
    → IsAbove n rows
    → IsAbove n (append r rows)
unfolding append
append-IsAbove n r [] lt fresh h = (lt, tt)
append-IsAbove n r (q ∷ rows) lt (new, fresh) (h, hs) = elim (Bool-cases (ltb r.seq q.seq)) [
  | inl less ↦ rw less (lt, (ground arith, hs))
  | inr more ↦ rw more (h, append-IsAbove q.seq r rows (ground arith) fresh hs)
]

pub append-range :
    {Json : Type 0} (low upto : ℕ) (r : Row Json) (rows : List (Row Json))
    → upto < r.seq
    → retain (range low upto) (append r rows) ≡ retain (range low upto) rows
unfolding append
append-range low upto r [] lt = ground arith
append-range low upto r (q ∷ rows) lt = ground (arith, append-range low upto r rows lt)

-- A batch of one consumer leaves the cursor of another and the events as they are.
module _ {Json Event : Type 0} (from_value : Json → Option Event) (consumer who : Text)
    (s : Store Json) (handler : List (StoredEvent Json Event) → DomainResult (Unit {0}))
    (commit : DomainResult (Unit {0})) where
  pub record Untouched (b : Batch Json Event) : Type 0 where
    pub cursor : who ≢ consumer → lookup consumer b.store.cursors ≡ lookup consumer s.cursors
    pub events : b.store.events ≡ s.events

  committed-Untouched :
      (top : ℕ) (events : List (StoredEvent Json Event)) (result : DomainResult (Unit {0}))
      → Untouched (committed from_value handler commit s who top events result)
  unfolding committed
  committed-Untouched top events (err e) = record { cursor = λ ne. refl; events = refl }
  committed-Untouched top events (ok done) = record {
    cursor = λ ne. lookup-insert_ne who consumer top s.cursors ne;
    events = refl;
  }

  handle-Untouched :
      (top : ℕ) (read : DomainResult (List (StoredEvent Json Event)))
      → Untouched (handle from_value handler commit s who top read)
  unfolding handle
  handle-Untouched top (err e) = record { cursor = λ ne. refl; events = refl }
  handle-Untouched top (ok events) =
      committed-Untouched top events (handler events >>= (λ done. commit))

  process_rows-Untouched :
      (last : ℕ) (rows : List (Row Json))
      → Untouched (process_rows from_value handler commit s who last rows)
  unfolding process_rows
  process_rows-Untouched last [] = record { cursor = λ ne. refl; events = refl }
  process_rows-Untouched last (r ∷ rows) =
      handle-Untouched (max_seq last (r ∷ rows)) (parse_rows from_value (r ∷ rows))

  from_cursor-Untouched :
      (size : ℕ) (o : Option ℕ) → Untouched (from_cursor from_value handler commit s who size o)
  unfolding from_cursor
  from_cursor-Untouched size none = record { cursor = λ ne. refl; events = refl }
  from_cursor-Untouched size (some last) =
      process_rows-Untouched last (batch_rows last size s.events)

  pub process_batch-Untouched :
      (locked : Bool) (size : ℕ)
      → Untouched (process_batch from_value handler commit s locked who size)
  unfolding process_batch
  process_batch-Untouched locked size =
      from_cursor-Untouched size (if locked then none else lookup who s.cursors)
