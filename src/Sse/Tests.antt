-- ===== src/Sse/Tests.antt =====
-- The SSE parser on concrete chunks, and its theorems there.
use venice_e2ee_proxy.Base.{◌≡◌, refl, List, [], ◌∷◌, ◌++◌, none, some, ok, err}
use venice_e2ee_proxy.Text.{Text, text}
use venice_e2ee_proxy.Stream.{RawSseEvent, unsupported_field}
use venice_e2ee_proxy.Text.{text_eq}
use venice_e2ee_proxy.Text.Search.{
  find, lines, end_lines, split_lines, join_lines, strip_last, strip_first, split_once,
}
use venice_e2ee_proxy.Sse.{
  push, sse_event_boundary, parse_events, one_round, earliest, candidates, is_comment,
  field_and_value, read_line, read_lines, parse_sse_event,
}
use venice_e2ee_proxy.Sse.Boundary.{scan, sse_event_boundary-scan}
use venice_e2ee_proxy.Sse.Pump.{push_all, in_turn, concat, push_all-concat}

-- "data: a" CR LF, "data:b" CR LF CR | LF "event: x" LF "data: c" LF LF ": d"
abbrev chunks : List Text
chunks =
    (text "data: a" ++ 13 ∷ 10 ∷ text "data:b" ++ 13 ∷ 10 ∷ 13 ∷ [])
    ∷ (10 ∷ text "event: x" ++ 10 ∷ text "data: c" ++ 10 ∷ 10 ∷ text ": d")
    ∷ []

abbrev events : List RawSseEvent
events =
    (record { event = none; data_text = text "a" ++ 10 ∷ text "b" })
    ∷ (record { event = some (text "x"); data_text = text "c" })
    ∷ []

two_events : push_all [] chunks ≡ (text ": d", ok events)
unfolding push parse_events one_round sse_event_boundary earliest candidates find lines end_lines
    split_lines join_lines strip_last strip_first split_once is_comment field_and_value read_line
    read_lines parse_sse_event text_eq push_all in_turn
two_events = refl

bad_field : (push [] (text "foo: 1" ++ 10 ∷ 10 ∷ [])).1 ≡ err (unsupported_field (text "foo"))
unfolding push parse_events one_round sse_event_boundary earliest candidates find lines end_lines
    split_lines join_lines strip_last strip_first split_once is_comment field_and_value read_line
    read_lines parse_sse_event text_eq
bad_field = refl

push_all-concat_example : (push_all [] chunks).1 ≡ (push [] (concat chunks)).1
unfolding sse_event_boundary earliest candidates find
push_all-concat_example = push_all-concat chunks [] refl

sse_event_boundary-scan_example : sse_event_boundary (concat chunks) ≡ scan (concat chunks)
sse_event_boundary-scan_example = sse_event_boundary-scan (concat chunks)
