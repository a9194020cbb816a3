-- ===== src/Ai/Complete.antt =====
-- The complete events of a buffer.
use flowplane.Base.{
  ℕ, zero, suc, ◌+◌, ◌-◌, ◌<◌, ◌≤◌, ◌≡◌, ◌⊎◌, refl, true, false, List, ◌++◌, none, some, length,
  arith, Bool-cases, Option-cases, inl, inr,
}
use flowplane.Ai.Sse.{next_sse_event_end, is_open, complete_from, complete_sse_events_end}
use flowplane.Ai.Framing.{
  next_sse_event_end_bound, next_sse_event_end-append, length-append, get_elem?-append,
}

module _ (fuel : ℕ) (buffer : List ℕ) (last : ℕ) where
  stops_at_none :
      next_sse_event_end buffer last ≡ none → complete_from (suc fuel) buffer last ≡ last
  unfolding complete_from
  stops_at_none e = rw (complete_from, e) refl

  stops_at_open :
      (end : ℕ)
      → next_sse_event_end buffer last ≡ some end
      → is_open buffer end ≡ true
      → complete_from (suc fuel) buffer last ≡ last
  unfolding complete_from
  stops_at_open end e open_ = rw (complete_from, e, open_) refl

  goes_on_from :
      (end : ℕ)
      → next_sse_event_end buffer last ≡ some end
      → is_open buffer end ≡ false
      → complete_from (suc fuel) buffer last ≡ complete_from fuel buffer end
  unfolding complete_from
  goes_on_from end e closed = rw (complete_from, e, closed) refl

-- A scan ends by itself, with nothing left or with an event that may go on, or it finds an event.
abbrev Ahead : List ℕ → ℕ → Type 0
Ahead buffer last =
    (next_sse_event_end buffer last ≡ none)
    ⊎ ((end : ℕ) × (next_sse_event_end buffer last ≡ some end) × (is_open buffer end ≡ true))
    ⊎ ((end : ℕ) × (next_sse_event_end buffer last ≡ some end) × (is_open buffer end ≡ false))

ahead : (buffer : List ℕ) (last : ℕ) → Ahead buffer last
ahead buffer last = elim (Option-cases (next_sse_event_end buffer last)) [
  | inl e ↦ inl e
  | inr (end, found) ↦ elim (Bool-cases (is_open buffer end)) [
    | inl open_ ↦ inr (inl (end, found, open_))
    | inr closed ↦ inr (inr (end, found, closed))
  ]
]

complete_from_lower :
    (fuel : ℕ) (buffer : List ℕ) (last : ℕ) → last ≤ complete_from fuel buffer last
unfolding complete_from
complete_from_lower zero buffer last = omega arith
complete_from_lower (suc fuel) buffer last = elim (ahead buffer last) [
  | inl e ↦ omega (arith, stops_at_none fuel buffer last e)
  | inr (inl (end, e, o)) ↦ omega (arith, stops_at_open fuel buffer last end e o)
  | inr (inr (end, e, c)) ↦ omega (
    arith,
    goes_on_from fuel buffer last end e c,
    next_sse_event_end_bound buffer last end e,
    complete_from_lower fuel buffer end,
  )
]

complete_from_upper :
    (fuel : ℕ) (buffer : List ℕ) (last : ℕ)
    → last ≤ length buffer
    → complete_from fuel buffer last ≤ length buffer
unfolding complete_from
complete_from_upper zero buffer last le = le
complete_from_upper (suc fuel) buffer last le = elim (ahead buffer last) [
  | inl e ↦ omega (arith, stops_at_none fuel buffer last e)
  | inr (inl (end, e, o)) ↦ omega (arith, stops_at_open fuel buffer last end e o)
  | inr (inr (end, e, c)) ↦
      let bound = next_sse_event_end_bound buffer last end e in
      omega
        (arith, goes_on_from fuel buffer last end e c, complete_from_upper fuel buffer end bound.1)
]

-- No event that a later byte could not extend is left behind.
abbrev pub IsDone : List ℕ → ℕ → Type 0
IsDone buffer last = (e : ℕ) → next_sse_event_end buffer last ≡ some e → is_open buffer e ≡ true

complete_from-IsDone :
    (fuel : ℕ) (buffer : List ℕ) (last : ℕ)
    → length buffer ≤ last + fuel
    → IsDone buffer (complete_from fuel buffer last)
unfolding complete_from
complete_from-IsDone zero buffer last le =
    λ e found. absurd (omega (arith, next_sse_event_end_bound buffer last e found))
complete_from-IsDone (suc fuel) buffer last le = elim (ahead buffer last) [
  | inl e ↦ rw (stops_at_none fuel buffer last e) (λ f found. ground (arith, e))
  | inr (inl (end, e, o)) ↦
      rw (stops_at_open fuel buffer last end e o) (λ f found. ground (arith, e))
  | inr (inr (end, e, c)) ↦ rw (goes_on_from fuel buffer last end e c) (
      complete_from-IsDone fuel buffer end
        (omega (arith, next_sse_event_end_bound buffer last end e)))
]

is_open-append :
    (buffer more : List ℕ) (end : ℕ)
    → 0 < end
    → end ≤ length buffer
    → is_open buffer end ≡ false
    → is_open (buffer ++ more) end ≡ false
is_open-append buffer more end pos le closed =
    ground (arith, get_elem?-append buffer more (end - 1) (omega arith), length-append buffer more)

complete_from-append :
    (fuel fuel' : ℕ) (buffer more : List ℕ) (last : ℕ)
    → fuel ≤ fuel'
    → complete_from fuel buffer last ≤ complete_from fuel' (buffer ++ more) last
unfolding complete_from
complete_from-append zero fuel' buffer more last le =
    complete_from_lower fuel' (buffer ++ more) last
complete_from-append (suc fuel) zero buffer more last le = absurd (omega arith)
complete_from-append (suc fuel) (suc fuel') buffer more last le = elim (ahead buffer last) [
  | inl e ↦ omega (
    arith,
    stops_at_none fuel buffer last e,
    complete_from_lower (suc fuel') (buffer ++ more) last,
  )
  | inr (inl (end, e, o)) ↦ omega (
    arith,
    stops_at_open fuel buffer last end e o,
    complete_from_lower (suc fuel') (buffer ++ more) last,
  )
  | inr (inr (end, e, c)) ↦
      let bound = next_sse_event_end_bound buffer last end e in
      let e' = next_sse_event_end-append buffer more last end e c in
      let c' = is_open-append buffer more end (omega (arith, bound)) bound.1 c in
      omega (
        arith,
        goes_on_from fuel buffer last end e c,
        goes_on_from fuel' (buffer ++ more) last end e' c',
        complete_from-append fuel fuel' buffer more end (omega (arith, le)),
      )
]

-- The places that whole events lead to, one after the other from the start, none of them open.
pub data IsReached (buffer : List ℕ) : ℕ → Type 0 where
  start : IsReached buffer 0
  event :
      {last end : ℕ}
      → IsReached buffer last
      → next_sse_event_end buffer last ≡ some end
      → is_open buffer end ≡ false
      → IsReached buffer end

complete_from-IsReached :
    (fuel : ℕ) (buffer : List ℕ) (last : ℕ)
    → IsReached buffer last
    → IsReached buffer (complete_from fuel buffer last)
unfolding complete_from
complete_from-IsReached zero buffer last h = h
complete_from-IsReached (suc fuel) buffer last h = elim (ahead buffer last) [
  | inl e ↦ rw (stops_at_none fuel buffer last e) h
  | inr (inl (end, e, o)) ↦ rw (stops_at_open fuel buffer last end e o) h
  | inr (inr (end, e, c)) ↦
      rw (goes_on_from fuel buffer last end e c)
        (complete_from-IsReached fuel buffer end (IsReached.event h e c))
]

-- At the end of the stream the complete part is the whole buffer. Before that it lies in the buffer, it
-- is a sequence of whole events from the start, none of which a later byte could extend, and the event
-- that comes next, if there is one, ends the buffer with a lone `\r`.
pub complete_sse_events_end-IsDone :
    (buffer : List ℕ)
    → (complete_sse_events_end buffer true ≡ length buffer)
      × (complete_sse_events_end buffer false ≤ length buffer)
      × IsReached buffer (complete_sse_events_end buffer false)
      × IsDone buffer (complete_sse_events_end buffer false)
unfolding complete_sse_events_end
complete_sse_events_end-IsDone buffer = (
  refl,
  complete_from_upper (length buffer) buffer 0 (omega arith),
  complete_from-IsReached (length buffer) buffer 0 IsReached.start,
  complete_from-IsDone (length buffer) buffer 0 (omega arith),
)

-- Before the end of the stream, bytes that arrive later only add to the complete part.
pub complete_sse_events_end-append :
    (buffer more : List ℕ)
    → complete_sse_events_end buffer false ≤ complete_sse_events_end (buffer ++ more) false
unfolding complete_sse_events_end
complete_sse_events_end-append buffer more =
    complete_from-append (length buffer) (length (buffer ++ more)) buffer more 0
      (omega (arith, length-append buffer more))
