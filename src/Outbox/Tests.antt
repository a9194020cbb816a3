-- ===== src/Outbox/Tests.antt =====
-- Histories of the outbox: a failed batch that comes again, and a row that commits late.
use flowplane.Base.{
  ℕ, ◌≡◌, refl, false, List-Eq, ℕ-Eq, List, [], ◌∷◌, map, retain, some, Option, none, Text, lookup,
  insert, arith, chars,
}
use flowplane.Domain.Error.{DomainResult, ok, err, internal_error}
use flowplane.Outbox.Store.{
  Row, StoredEvent, Store, process_batch, from_cursor, process_rows, handle, committed, parse_rows,
  parsed, stored, batch_rows, max_seq, append, escaped, is_special, like_contains_pattern,
}
use flowplane.Outbox.Order.{range}
use flowplane.Outbox.History.{Step, attempt, new_row, after, handled}
use flowplane.Outbox.Contiguous.{handled-range}

abbrev read : ℕ → Option ℕ
read n = some n

abbrev row : ℕ → Row ℕ
row n = record { seq = n; org_id = none; team_id = none; payload = n; trace_context = 0 }

abbrev empty : Store ℕ
empty = record { events = []; cursors = (chars "xds", 0) ∷ (chars "tools", 0) ∷ [] }

abbrev works : List (StoredEvent ℕ ℕ) → DomainResult (Unit {0})
works events = ok tt

abbrev fails : List (StoredEvent ℕ ℕ) → DomainResult (Unit {0})
fails events = err (internal_error "handler")

abbrev batch : Text → (List (StoredEvent ℕ ℕ) → DomainResult (Unit {0})) → Step ℕ ℕ
batch consumer handler = attempt consumer false 100 handler (ok tt)

-- The latest step comes first.
abbrev retried : List (Step ℕ ℕ)
retried =
    batch (chars "xds") works
    ∷ batch (chars "tools") works
    ∷ batch (chars "xds") fails
    ∷ new_row (row 2)
    ∷ new_row (row 1)
    ∷ []

retried_handled : handled read (chars "xds") empty retried ≡ (1 ∷ 2 ∷ [])
unfolding handled after process_batch from_cursor process_rows handle committed parse_rows parsed
    stored batch_rows max_seq append lookup insert
retried_handled = refl

handled-range_example :
    (last : ℕ) × (lookup (chars "xds") (after read empty retried).cursors ≡ some last)
    × (handled read (chars "xds") empty retried
        ≡ map (λ r. r.seq) (retain (range 0 last) (after read empty retried).events))
unfolding after lookup append
handled-range_example =
    handled-range read (chars "xds") empty 0 refl tt retried (
      (omega arith, ((λ e. omega (arith, e)), tt), omega arith, (omega arith, tt, omega arith, tt)))

-- The row that took its number first commits last, after the cursor went over it: no batch has it.
abbrev overtaken : List (Step ℕ ℕ)
overtaken =
    batch (chars "xds") works ∷ new_row (row 1) ∷ batch (chars "xds") works ∷ new_row (row 2) ∷ []

overtaken_handled : handled read (chars "xds") empty overtaken ≡ (2 ∷ [])
unfolding handled after process_batch from_cursor process_rows handle committed parse_rows parsed
    stored batch_rows max_seq append lookup insert
overtaken_handled = refl

pattern : like_contains_pattern (chars "50%_a") ≡ chars "%50\\%\\_a%"
unfolding like_contains_pattern escaped is_special
pattern = refl
