-- ===== src/Sse.antt =====
-- src/http.rs: `SseEventParser`, the incremental parser of upstream Server-Sent Events.
pub mod Boundary
pub mod Chunks
pub mod Pump
mod Tests
use venice_e2ee_proxy.Base.{
  ℕ, ◌+◌, ◌≡◌, Bool, true, false, List, [], ◌∷◌, ◌++◌, Option, none, some, if◌then◌else◌, leb,
  Result, ok, err, length, take, drop, suc, zero,
}
use venice_e2ee_proxy.Text.{Text, text, text_eq, is_empty}
use venice_e2ee_proxy.Text.Trim.{trim}
use venice_e2ee_proxy.Text.Search.{find, lines, join_lines, strip_last, strip_first, split_once}
use venice_e2ee_proxy.Stream.{
  RawSseEvent, Malformed, unsupported_field, no_data_field, incomplete_event,
}

-- `map(|index| (index, delimiter.len()))`, within `filter_map`.
abbrev pub candidate : Option ℕ → ℕ → List (ℕ × ℕ) → List (ℕ × ℕ)
candidate none l rest = rest
candidate (some i) l rest = (i, l) ∷ rest

unfoldable pub candidates : List Text → Text → List (ℕ × ℕ)
candidates [] buffer = []
candidates (d ∷ ds) buffer = candidate (find d buffer) (length d) (candidates ds buffer)

-- `min_by_key` of the position: the first of the least ones.
unfoldable pub earliest : List (ℕ × ℕ) → Option (ℕ × ℕ)
earliest [] = none
earliest ((i, l) ∷ ps) =
    let best = earliest ps in
    elim best [ none ↦ some (i, l) | some (j, k) ↦ if leb i j then some (i, l) else some (j, k) ]

abbrev pub delimiters : List Text
delimiters = (13 ∷ 10 ∷ 13 ∷ 10 ∷ []) ∷ (10 ∷ 10 ∷ []) ∷ (13 ∷ 13 ∷ []) ∷ []

unfoldable pub sse_event_boundary : Text → Option (ℕ × ℕ)
sse_event_boundary buffer = earliest (candidates delimiters buffer)

-- What the loop over the lines of an event has found: the event type, the data lines in order,
-- and whether it saw a field.
pub record Fields : Type 0 where
  pub event : Option Text
  pub data_lines : List Text
  pub saw_non_comment_field : Bool

-- `strip_suffix('\r')`, then `line.is_empty() || line.starts_with(':')`.
unfoldable pub is_comment : Text → Bool
is_comment [] = true
is_comment (c ∷ cs) = text_eq (c ∷ []) (text ":")

unfoldable pub field_and_value : Text → Text × Text
field_and_value line = elim (split_once b':' line) [
  | none ↦ (line, [])
  | some (name, value) ↦ (name, strip_first b' ' value)
]

-- One line of the event.
unfoldable pub read_line : Fields → Text → Result Malformed Fields
read_line fields raw_line =
    let line = strip_last 13 raw_line in
    let (name, value) = field_and_value line in
    if is_comment line
    then ok fields
    else if text_eq name (text "event")
    then ok (record fields { event = some value; saw_non_comment_field = true })
    else if text_eq name (text "data")
    then ok (record fields {
      data_lines = fields.data_lines ++ value ∷ [];
      saw_non_comment_field = true;
    })
    else if text_eq name (text "id")
    then ok (record fields { saw_non_comment_field = true })
    else if text_eq name (text "retry")
    then ok (record fields { saw_non_comment_field = true })
    else err (unsupported_field name)

unfoldable pub read_lines : Fields → List Text → Result Malformed Fields
read_lines fields [] = ok fields
read_lines fields (l ∷ ls) = elim (read_line fields l) [
  | err e ↦ err e
  | ok fields' ↦ read_lines fields' ls
]

abbrev pub no_fields : Fields
no_fields = record { event = none; data_lines = []; saw_non_comment_field = false }

unfoldable pub parse_sse_event : Text → Result Malformed (Option RawSseEvent)
parse_sse_event raw = elim (read_lines no_fields (lines raw)) [
  | err e ↦ err e
  | ok fields ↦ elim fields.data_lines [
    | [] ↦ if fields.saw_non_comment_field then err no_data_field else ok none
    | l ∷ ls ↦ ok (some (record { event = fields.event; data_text = join_lines (l ∷ ls) }))
  ]
]

-- The events after those already found.
abbrev pub prepend :
    List RawSseEvent → Result Malformed (List RawSseEvent) → Result Malformed (List RawSseEvent)
prepend events (err e) = err e
prepend events (ok more) = ok (events ++ more)

-- One round of the loop of `push`: what parsing the event gives, the buffer without it, and what
-- the further rounds give.
unfoldable pub one_round :
    Result Malformed (Option RawSseEvent)
    → Text
    → Text × Result Malformed (List RawSseEvent)
    → Text × Result Malformed (List RawSseEvent)
one_round (err e) rest (left, more) = (rest, err e)
one_round (ok none) rest (left, more) = (left, more)
one_round (ok (some event)) rest (left, more) = (left, prepend (event ∷ []) more)

-- The loop of `push`: the buffer it leaves, and the events or the error that ends it. Each round
-- but the last takes a delimiter out of the buffer, so the buffer's length is fuel enough.
unfoldable pub parse_events : ℕ → Text → Text × Result Malformed (List RawSseEvent)
parse_events zero buffer = (buffer, ok [])
parse_events (suc fuel) buffer = elim (sse_event_boundary buffer) [
  | none ↦ (buffer, ok [])
  | some (start, len) ↦
      let rest = drop (start + len) buffer in
      one_round (parse_sse_event (take start buffer)) rest (parse_events fuel rest)
]

-- `push`, on the parser's buffer.
unfoldable pub push : Text → Text → Text × Result Malformed (List RawSseEvent)
push buffer chunk = let all = buffer ++ chunk in parse_events (length all) all

unfoldable pub finish : Text → Result Malformed (Unit {0})
finish buffer = if is_empty (trim buffer) then ok tt else err incomplete_event
