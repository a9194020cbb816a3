-- ===== src/Outbox/Store.antt =====
-- The two tables of the outbox and a batch of a consumer (crates/fp-storage/src/outbox.rs).
-- A transaction is one step: what it writes is there when it commits, and not at all when it fails.
use flowplane.Base.{
  ℕ, ◌++◌, Bool, List, [], ◌∷◌, Option, none, some, Text, Dict, lookup, insert, retain, take,
  length, ltb, nat_eq, ◌||◌, List-Eq, ℕ-Eq, if◌then◌else◌,
}
use flowplane.Domain.Error.{DomainResult, ok, err, internal_error, ◌>>=◌}

-- A row of `events`; `Json` is the type of a JSON value.
pub record Row (Json : Type 0) : Type 0 where
  pub seq : ℕ
  pub org_id : Option ℕ
  pub team_id : Option ℕ
  pub payload : Json
  pub trace_context : Json

pub record StoredEvent (Json Event : Type 0) : Type 0 where
  pub seq : ℕ
  pub event : Event
  pub org_id : Option ℕ
  pub team_id : Option ℕ
  pub trace_context : Json

-- `events`, ordered by `seq`, and `event_cursors`.
pub record Store (Json : Type 0) : Type 0 where
  pub events : List (Row Json)
  pub cursors : Dict Text ℕ

-- What a batch comes to: the tables, the answer, and the events that the handler got.
pub record Batch (Json Event : Type 0) : Type 0 where
  pub store : Store Json
  pub answer : DomainResult ℕ
  pub delivered : List (StoredEvent Json Event)

unfoldable pub max_seq : {Json : Type 0} → ℕ → List (Row Json) → ℕ
max_seq top [] = top
max_seq top (r ∷ rows) = max_seq (if ltb top r.seq then r.seq else top) rows

-- `register_consumer`, which leaves a cursor that is there.
unfoldable pub register_consumer : {Json : Type 0} → Store Json → Text → Store Json
register_consumer s consumer = elim (lookup consumer s.cursors) [
  | none ↦ record s { cursors = insert consumer 0 s.cursors }
  | some last ↦ s
]

unfoldable pub register_consumer_at_head : {Json : Type 0} → Store Json → Text → Store Json
register_consumer_at_head s consumer = record s {
  cursors = insert consumer (max_seq 0 s.events) s.cursors;
}

-- The rows that a batch reads.
unfoldable pub batch_rows : {Json : Type 0} → ℕ → ℕ → List (Row Json) → List (Row Json)
batch_rows last size events = take size (retain (λ r. ltb last r.seq) events)

-- The reader of a payload is an argument: `serde_json::from_value`.
module _ {Json Event : Type 0} (from_value : Json → Option Event) where
  unfoldable pub stored : Row Json → Event → StoredEvent Json Event
  stored r event = record {
    seq = r.seq;
    event = event;
    org_id = r.org_id;
    team_id = r.team_id;
    trace_context = r.trace_context;
  }

  unfoldable pub parsed :
      Row Json
      → Option Event
      → DomainResult (List (StoredEvent Json Event))
      → DomainResult (List (StoredEvent Json Event))
  parsed r none rest = err (internal_error "outbox: event seq={seq} does not parse")
  parsed r (some event) (err e) = err e
  parsed r (some event) (ok events) = ok (stored r event ∷ events)

  unfoldable pub parse_rows : List (Row Json) → DomainResult (List (StoredEvent Json Event))
  parse_rows [] = ok []
  parse_rows (r ∷ rows) = parsed r (from_value r.payload) (parse_rows rows)

  -- The cursor row is free or held by another replica; the handler, and whether the cursor is
  -- advanced and the transaction commits, are arguments.
  module _ (handler : List (StoredEvent Json Event) → DomainResult (Unit {0}))
      (commit : DomainResult (Unit {0})) where
    unfoldable pub committed :
        Store Json
        → Text
        → ℕ
        → List (StoredEvent Json Event)
        → DomainResult (Unit {0})
        → Batch Json Event
    committed s consumer top events (err e) = record {
      store = s;
      answer = err e;
      delivered = events;
    }
    committed s consumer top events (ok done) = record {
      store = record s { cursors = insert consumer top s.cursors };
      answer = ok (length events);
      delivered = events;
    }

    unfoldable pub handle :
        Store Json → Text → ℕ → DomainResult (List (StoredEvent Json Event)) → Batch Json Event
    handle s consumer top (err e) = record { store = s; answer = err e; delivered = [] }
    handle s consumer top (ok events) =
        committed s consumer top events (handler events >>= (λ done. commit))

    unfoldable pub process_rows : Store Json → Text → ℕ → List (Row Json) → Batch Json Event
    process_rows s consumer last [] = record { store = s; answer = ok 0; delivered = [] }
    process_rows s consumer last (r ∷ rows) =
        handle s consumer (max_seq last (r ∷ rows)) (parse_rows (r ∷ rows))

    unfoldable pub from_cursor : Store Json → Text → ℕ → Option ℕ → Batch Json Event
    from_cursor s consumer size none = record { store = s; answer = ok 0; delivered = [] }
    from_cursor s consumer size (some last) =
        process_rows s consumer last (batch_rows last size s.events)

    unfoldable pub process_batch : Store Json → Bool → Text → ℕ → Batch Json Event
    process_batch s locked consumer size =
        from_cursor s consumer size (if locked then none else lookup consumer s.cursors)

-- `append`, in a transaction that commits: a row goes to its place in the order.
unfoldable pub append : {Json : Type 0} → Row Json → List (Row Json) → List (Row Json)
append row [] = row ∷ []
append row (r ∷ rows) =
    let rest = append row rows in if ltb row.seq r.seq then row ∷ r ∷ rows else r ∷ rest

-- `like_contains_pattern`.
unfoldable pub is_special : ℕ → Bool
is_special c = nat_eq c 92 || nat_eq c 37 || nat_eq c 95

unfoldable pub escaped : Text → Text
escaped [] = []
escaped (c ∷ raw) = let rest = escaped raw in if is_special c then 92 ∷ c ∷ rest else c ∷ rest

unfoldable pub like_contains_pattern : Text → Text
like_contains_pattern raw = 37 ∷ escaped raw ++ 37 ∷ []
