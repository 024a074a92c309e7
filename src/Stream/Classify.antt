-- ===== src/Stream/Classify.antt =====
-- src/http.rs: `classify_upstream_event` and the checked reading of an upstream chunk's fields.
use venice_e2ee_proxy.Base.{
  ℕ, ◌^◌, Bool, false, Option, none, some, Result, ok, err, and_then, ltb, if◌then◌else◌, length,
  unwrap_or, List, [], ◌∷◌, map_err,
}
use venice_e2ee_proxy.Text.{Text, text, text_eq, is_empty}
use venice_e2ee_proxy.Text.Trim.{trim}
use venice_e2ee_proxy.Json.{
  Value, string, number, null, pos_int, neg_int, float, Number, items, get, as_str, as_array,
  get_field, as_object,
}
use venice_e2ee_proxy.Stream.{
  StreamLib, StreamError, RawSseEvent, Malformed, upstream_event, malformed_event, event_data,
  error_entry, invalid_json, missing_choices, choice_count, choice_index_not_integer,
  finish_reason_not_string, delta_field_not_string, choice_not_object, no_usage,
}

pub data UpstreamEventKind : Type 0 where
  done : UpstreamEventKind
  usage : Value → UpstreamEventKind
  choice : Value → Value → UpstreamEventKind

-- A chunk by the number of its choices.
unfoldable pub by_choices : Value → List Value → Result Malformed UpstreamEventKind
by_choices value [] = ok (usage value)
by_choices value (c ∷ []) = ok (choice value c)
by_choices value (c ∷ (d ∷ cs)) = err (choice_count (length (c ∷ d ∷ cs)))

-- The chunk of an event that is neither an error event nor the end marker.
unfoldable pub classify_chunk :
    (lib : StreamLib) → Value → Result (StreamError lib) UpstreamEventKind
classify_chunk lib value = elim (get (text "error") value) [
  | some e ↦ err (upstream_event (error_entry e))
  | none ↦ elim (and_then (get (text "choices") value) as_array) [
    | none ↦ err (malformed_event missing_choices)
    | some choices ↦ map_err malformed_event (by_choices value (items choices))
  ]
]

unfoldable pub classify_parsed :
    (lib : StreamLib) → Option Value → Result (StreamError lib) UpstreamEventKind
classify_parsed lib none = err (malformed_event invalid_json)
classify_parsed lib (some value) = classify_chunk lib value

unfoldable pub is_error_event : Option Text → Bool
is_error_event none = false
is_error_event (some name) = text_eq name (text "error")

unfoldable pub classify_upstream_event :
    (lib : StreamLib) → RawSseEvent → Result (StreamError lib) UpstreamEventKind
classify_upstream_event lib event =
    if is_error_event event.event
    then err (upstream_event (event_data event.data_text))
    else if text_eq (trim event.data_text) (text "[DONE]")
    then ok done
    else classify_parsed lib (lib.from_str event.data_text)

-- `Value::as_u64`, on a number.
unfoldable pub as_u64 : Number → Option ℕ
as_u64 (pos_int n) = some n
as_u64 (neg_int n) = none
as_u64 (float n) = none

unfoldable pub normalized_choice_index : Option Value → Result Malformed ℕ
normalized_choice_index none = ok 0
normalized_choice_index (some (number n)) = elim (as_u64 n) [
  | some index ↦ ok index
  | none ↦ err choice_index_not_integer
]
normalized_choice_index (some _) = err choice_index_not_integer

unfoldable pub normalized_finish_reason : Option Value → Result Malformed Value
normalized_finish_reason none = ok null
normalized_finish_reason (some null) = ok null
normalized_finish_reason (some (string reason)) = ok (string reason)
normalized_finish_reason (some _) = err finish_reason_not_string

-- What `encrypted_delta_text_field` makes of the field it reads.
unfoldable pub text_field : Text → Option Value → Result Malformed (Option Text)
text_field name none = ok none
text_field name (some null) = ok none
text_field name (some (string content)) = if is_empty content then ok none else ok (some content)
text_field name (some _) = err (delta_field_not_string name)

unfoldable pub encrypted_delta_text_field : Value → Text → Result Malformed (Option Text)
encrypted_delta_text_field delta name = text_field name (get name delta)

unfoldable pub string_field : Value → Text → Option Text
string_field value name = and_then (get name value) as_str

-- `Value::as_i64`, as the number itself.
unfoldable pub as_i64 : Value → Option Number
as_i64 (number (pos_int n)) = if ltb n (2 ^ 63) then some (pos_int n) else none
as_i64 (number (neg_int n)) = some (neg_int n)
as_i64 _ = none

unfoldable pub integer_field : Value → Text → Option Number
integer_field value name = and_then (get name value) as_i64

-- The checked fields of a choice, read in the order of `handle_choice_chunk`.
pub record Choice : Type 0 where
  pub index : Option Value
  pub finish_reason : Value
  pub content : Option Text
  pub reasoning_content : Option Text

-- The choice's index, where the code reads it before the other fields.
unfoldable pub read_index : Value → Result Malformed ℕ
read_index value = elim (as_object value) [
  | none ↦ err choice_not_object
  | some fields ↦ normalized_choice_index (get_field (text "index") fields)
]

unfoldable pub read_choice : Value → Result Malformed Choice
read_choice value = elim (as_object value) [
  | none ↦ err choice_not_object
  | some fields ↦
      let delta = unwrap_or (get_field (text "delta") fields) null in
      elim (normalized_finish_reason (get_field (text "finish_reason") fields)) [
        | err e ↦ err e
        | ok finish_reason ↦ elim (encrypted_delta_text_field delta (text "content")) [
          | err e ↦ err e
          | ok content ↦ elim (encrypted_delta_text_field delta (text "reasoning_content")) [
            | err e ↦ err e
            | ok reasoning ↦ ok (record {
              index = get_field (text "index") fields;
              finish_reason = finish_reason;
              content = content;
              reasoning_content = reasoning;
            })
          ]
        ]
      ]
]

-- The usage of a chunk without choices.
unfoldable pub read_usage : Value → Result Malformed Value
read_usage value = elim (get (text "usage") value) [ none ↦ err no_usage | some u ↦ ok u ]
