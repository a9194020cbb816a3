-- ===== src/Ai/Sse.antt =====
-- Server-sent events in a byte buffer (crates/fp-domain/src/ai.rs). Loops on an index run on fuel, the
-- number of bytes from the index on.
use flowplane.Base.{
  ℕ, zero, suc, ◌+◌, ◌-◌, Bool, true, false, ◌&&◌, List, [], ◌++◌, Option, none, some, length,
  get_elem?, take, drop, ltb, nat_eq, if◌then◌else◌,
}

-- `\r` and `\n`.
abbrev pub cr : ℕ
cr = 13

abbrev pub lf : ℕ
lf = 10

abbrev pub is_byte : Option ℕ → ℕ → Bool
is_byte none b = false
is_byte (some a) b = nat_eq a b

unfoldable pub sse_terminator_len : List ℕ → ℕ → ℕ
sse_terminator_len bytes i =
    if is_byte (get_elem? bytes i) cr && is_byte (get_elem? bytes (i + 1)) lf
    then 2
    else if is_byte (get_elem? bytes i) cr
    then 1
    else if is_byte (get_elem? bytes i) lf
    then 1
    else 0

-- The loop goes on after the terminator, or after one byte that starts none.
abbrev pub stride : ℕ → ℕ
stride first = if nat_eq first 0 then 1 else first

unfoldable pub next_from : ℕ → List ℕ → ℕ → Option ℕ
unfolding sse_terminator_len
next_from zero bytes i = none
next_from (suc fuel) bytes i =
    let first = sse_terminator_len bytes i in
    let second = sse_terminator_len bytes (i + first) in
    let rest = next_from fuel bytes (i + stride first) in
    if ltb i (length bytes)
    then if nat_eq first 0
      then rest
      else if nat_eq second 0
      then rest
      else some (i + first + second)
    else none

unfoldable pub next_sse_event_end : List ℕ → ℕ → Option ℕ
unfolding next_from
next_sse_event_end bytes from = next_from (length bytes - from) bytes from

-- An event that ends the buffer with a lone `\r`, which a `\n` could still extend.
abbrev pub is_open : List ℕ → ℕ → Bool
is_open buffer end = nat_eq end (length buffer) && is_byte (get_elem? buffer (end - 1)) cr

unfoldable pub complete_from : ℕ → List ℕ → ℕ → ℕ
unfolding next_sse_event_end
complete_from zero buffer last = last
complete_from (suc fuel) buffer last = elim (next_sse_event_end buffer last) [
  | none ↦ last
  | some end ↦ if is_open buffer end then last else complete_from fuel buffer end
]

unfoldable pub complete_sse_events_end : List ℕ → Bool → ℕ
unfolding complete_from
complete_sse_events_end buffer end_of_stream =
    if end_of_stream then length buffer else complete_from (length buffer) buffer 0

pub record OpenAiTokenUsage : Type 0 where
  pub prompt_tokens : ℕ
  pub completion_tokens : ℕ
  pub total_tokens : ℕ

abbrev pub slice : List ℕ → ℕ → ℕ → List ℕ
slice bytes start end = take (end - start) (drop start bytes)

abbrev pub unwrap_or : Option ℕ → ℕ → ℕ
unwrap_or none d = d
unwrap_or (some n) d = n

abbrev pub or_else : Option OpenAiTokenUsage → Option OpenAiTokenUsage → Option OpenAiTokenUsage
or_else none usage = usage
or_else (some parsed) usage = some parsed

abbrev pub is_usage : Option OpenAiTokenUsage → Bool
is_usage none = false
is_usage (some parsed) = true

-- The usage that an event parses as is a parameter: JSON is read by another package.
module _ (usage_from_sse_event : List ℕ → Option OpenAiTokenUsage) where
  unfoldable pub strip_from :
      ℕ → List ℕ → Bool → ℕ → Option OpenAiTokenUsage → List ℕ × Option OpenAiTokenUsage
  unfolding next_sse_event_end
  strip_from zero complete injected start usage = ([], usage)
  strip_from (suc fuel) complete injected start usage =
      let end = unwrap_or (next_sse_event_end complete start) (length complete) in
      let event = slice complete start end in
      let event_usage = usage_from_sse_event event in
      let (kept, last) = strip_from fuel complete injected end (or_else event_usage usage) in
      if ltb start (length complete)
      then (if injected && is_usage event_usage then kept else event ++ kept, last)
      else ([], usage)

  unfoldable pub strip_synthetic_openai_usage_sse : List ℕ → Bool → List ℕ × Option OpenAiTokenUsage
  unfolding strip_from
  strip_synthetic_openai_usage_sse complete injected =
      strip_from (length complete) complete injected 0 none
