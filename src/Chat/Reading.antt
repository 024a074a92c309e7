-- ===== src/Chat/Reading.antt =====
-- src/openai/chat.rs: the reading of the fields of a request's object.
use venice_e2ee_proxy.Base.{
  ℕ, Bool, false, ◌||◌, Option, none, some, Result, ok, err, ◌>>=◌, ok_or, List, [], ◌∷◌,
  if◌then◌else◌,
}
use venice_e2ee_proxy.Text.{Text, text, text_eq, is_empty}
use venice_e2ee_proxy.Text.Trim.{trim}
use venice_e2ee_proxy.Json.{
  Value, Fields, entries, get_field, as_str, as_bool, string, number, null, object,
}
use venice_e2ee_proxy.Chat.{
  ChatRequestError, Serde, StopSequence, OpenAiPassthroughFields, json_kind, missing_field,
  invalid_field, unsupported_field, expected_string, expected_boolean, expected_shape, blank,
  bad_metadata, invalid_tool_call_history, blank_field,
}

-- `trim().is_empty()`.
unfoldable pub is_blank : Text → Bool
is_blank s = is_empty (trim s)

unfoldable pub contains : List Text → Text → Bool
contains [] s = false
contains (a ∷ allowed) s = text_eq a s || contains allowed s

-- The first key that is not allowed.
unfoldable pub first_unknown : List Text → List (Text × Value) → Option Text
first_unknown allowed [] = none
first_unknown allowed ((key, value) ∷ rest) =
    let later = first_unknown allowed rest in if contains allowed key then later else some key

unfoldable pub reject_unknown_fields : Fields → List Text → Result ChatRequestError (Unit {0})
reject_unknown_fields m allowed = elim (first_unknown allowed (entries m)) [
  | none ↦ ok tt
  | some key ↦ err (unsupported_field key)
]

unfoldable pub required_non_empty_string : Fields → Text → Result ChatRequestError Text
required_non_empty_string m name = do
  value ← ok_or (get_field name m) (missing_field name)
  s ← ok_or (as_str value) (invalid_field name (expected_string (json_kind value)))
  if is_blank s then err (invalid_field name blank) else ok s

unfoldable pub optional_bool : Fields → Text → Result ChatRequestError (Option Bool)
optional_bool m name = elim (get_field name m) [
  | none ↦ ok none
  | some value ↦ elim (as_bool value) [
    | none ↦ err (invalid_field name (expected_boolean (json_kind value)))
    | some b ↦ ok (some b)
  ]
]

unfoldable pub nullable_string : Text → Value → Result ChatRequestError (Option Text)
nullable_string name null = ok none
nullable_string name (string s) = if is_blank s then err (invalid_field name blank) else ok (some s)
nullable_string name value = err (invalid_field name (expected_string (json_kind value)))

unfoldable pub optional_non_empty_string : Fields → Text → Result ChatRequestError (Option Text)
optional_non_empty_string m name = elim (get_field name m) [
  | none ↦ ok none
  | some value ↦ nullable_string name value
]

-- `deserialize_typed_value`, on what serde makes of the value.
unfoldable pub deserialize_typed_value {ℓ} :
    {A : Type ℓ} → Text → Value → Option A → Result ChatRequestError A
deserialize_typed_value name value read =
    ok_or read (invalid_field name (expected_shape (json_kind value)))

-- A field that may be missing or null.
unfoldable pub optional_typed {ℓ} :
    {A : Type ℓ} → (Value → Option A) → Fields → Text → Result ChatRequestError (Option A)
optional_typed read m name = elim (get_field name m) [
  | none ↦ ok none
  | some null ↦ ok none
  | some value ↦ do typed ← deserialize_typed_value name value (read value); ok (some typed)
]

unfoldable pub optional_number : Serde → Fields → Text → Result ChatRequestError (Option Value)
optional_number serde m name = do
  read ← optional_typed serde.number_value m name
  ok (elim read [ none ↦ none | some n ↦ some (number n) ])

unfoldable pub optional_u64 : Serde → Fields → Text → Result ChatRequestError (Option ℕ)
optional_u64 serde = optional_typed serde.u64_value

unfoldable pub optional_stop : Serde → Fields → Result ChatRequestError (Option StopSequence)
optional_stop serde m = optional_typed serde.stop_sequence m (text "stop")

-- `OpenAiPassthroughFields::parse`.
unfoldable pub passthrough_fields : Serde → Fields → Result ChatRequestError OpenAiPassthroughFields
passthrough_fields serde m = do
  temperature ← optional_number serde m (text "temperature")
  top_p ← optional_number serde m (text "top_p")
  max_tokens ← optional_u64 serde m (text "max_tokens")
  max_completion_tokens ← optional_u64 serde m (text "max_completion_tokens")
  stop ← optional_stop serde m
  ok (record {
    temperature = temperature;
    top_p = top_p;
    max_tokens = max_tokens;
    max_completion_tokens = max_completion_tokens;
    stop = stop;
  })

unfoldable pub metadata_value : Value → Result ChatRequestError (Unit {0})
metadata_value (object m) = ok tt
metadata_value null = ok tt
metadata_value value = err (invalid_field (text "metadata") bad_metadata)

unfoldable pub validate_ignored_client_only_fields : Fields → Result ChatRequestError (Unit {0})
validate_ignored_client_only_fields m = elim (get_field (text "metadata") m) [
  | none ↦ ok tt
  | some value ↦ metadata_value value
]

unfoldable pub non_empty_typed_string : Text → Text → Result ChatRequestError Text
non_empty_typed_string value name =
    if is_blank value then err (invalid_tool_call_history (blank_field name)) else ok value
