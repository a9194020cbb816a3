-- ===== src/Outbox/Contiguous.antt =====
-- A consumer handles every event once and in order, as long as events commit in the order of their
-- numbers.
use flowplane.Base.{
  ℕ, ◌≤◌, ◌<◌, ◌≡◌, ◌∙◌, sym, subst, refl, inl, inr, Bool-cases, List, [], ◌∷◌, ◌++◌, ap, map,
  retain, Option, some, Text, lookup, ◌==◌, List-Eq, ℕ-Eq, arith,
}
use flowplane.Base.SortedMap.{text_eq_iff}
use flowplane.Domain.Checks.{Given}
use flowplane.Outbox.Store.{Row, Store}
use flowplane.Outbox.Order.{range, IsAbove, range_self, range_join}
use flowplane.Outbox.Delivery.{process_batch-Advanced}
use flowplane.Outbox.History.{
  Step, attempt, new_row, after, handled, IsTimely, append-IsAbove, append-range,
  process_batch-Untouched,
}

map-append :
    {Json : Type 0} (xs ys : List (Row Json))
    → map (λ r. r.seq) (xs ++ ys) ≡ (map (λ r. r.seq) xs ++ map (λ r. r.seq) ys)
map-append [] ys = refl
map-append (x ∷ xs) ys = ap (λ seqs. x.seq ∷ seqs) (map-append xs ys)

module _ {Json Event : Type 0} (from_value : Json → Option Event) (consumer : Text) (s : Store Json)
    (start : ℕ) (found : lookup consumer s.cursors ≡ some start)
    (ordered : IsAbove 0 s.events) where
  record Progress (past : List (Step Json Event)) : Type 0 where
    last : ℕ
    grown : start ≤ last
    cursor : lookup consumer (after from_value s past).cursors ≡ some last
    above : IsAbove 0 (after from_value s past).events
    done :
        handled from_value consumer s past
        ≡ map (λ r. r.seq) (retain (range start last) (after from_value s past).events)

  progress : (past : List (Step Json Event)) → IsTimely from_value consumer s past → Progress past
  unfolding after handled
  progress [] h = record {
    last = start;
    grown = omega arith;
    cursor = found;
    above = ordered;
    done = rw (range_self start s.events) refl;
  }
  progress (new_row r ∷ past) (pos, fresh, late, h) =
      let p = progress past h in
      let before = after from_value s past in
      let lt = subst (λ o. Given o (λ last. last < r.seq)) p.cursor late in
      record {
        last = p.last;
        grown = p.grown;
        cursor = p.cursor;
        above = append-IsAbove 0 r before.events pos fresh p.above;
        done = p.done ∙ ap (map (λ q. q.seq)) (sym (append-range start p.last r before.events lt));
      }
  progress (attempt who locked size handler commit ∷ past) h =
      let p = progress past h in
      let before = after from_value s past in
      let u = process_batch-Untouched from_value consumer who before handler commit locked size in
      elim (Bool-cases (who == consumer)) [
        | inl own ↦
            let e : who ≡ consumer = (text_eq_iff who consumer).0 own in
            let a =
              process_batch-Advanced from_value who before p.last
                (subst (λ k. lookup k before.cursors ≡ some p.last) (sym e) p.cursor) handler commit
                locked size p.above in
            record {
              last = a.next;
              grown = omega (arith, p.grown, a.grown);
              cursor =
                  subst
                    (λ k.
                      lookup k
                        (after from_value s (attempt who locked size handler commit ∷ past)).cursors
                      ≡ some a.next)
                    e a.cursor;
              above = subst (IsAbove 0) (sym u.events) p.above;
              done =
                  rw (own, u.events, p.done, a.handled)
                    (sym (map-append _ _)
                      ∙ ap (map (λ r. r.seq))
                          (range_join start p.last a.next 0 before.events p.grown a.grown p.above));
            }
        | inr other ↦ record {
          last = p.last;
          grown = p.grown;
          cursor = u.cursor (ground (arith, text_eq_iff who consumer)) ∙ p.cursor;
          above = subst (IsAbove 0) (sym u.events) p.above;
          done = rw (other, u.events) p.done;
        }
      ]

  -- What a consumer has handled is exactly the events after its first cursor and up to its present
  -- one, each once and in order, whatever batches failed, were tried while the cursor was held, or
  -- served other consumers in between. New rows have numbers of their own, and none that the cursor
  -- has passed.
  pub handled-range :
      (past : List (Step Json Event))
      → IsTimely from_value consumer s past
      → (last : ℕ) × (lookup consumer (after from_value s past).cursors ≡ some last)
        × (handled from_value consumer s past
            ≡ map (λ r. r.seq) (retain (range start last) (after from_value s past).events))
  handled-range past h = let p = progress past h in (p.last, p.cursor, p.done)
