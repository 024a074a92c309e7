-- ===== src/Attempts/Completion.antt =====
-- src/http.rs: the assistant's text in a buffered completion, and the completion rewritten to one
-- with tool calls.
use venice_e2ee_proxy.Base.{ℕ, Option, none, some, and_then, unwrap_or, List, [], ◌∷◌, ◌++◌, map}
use venice_e2ee_proxy.Text.{Text, text}
use venice_e2ee_proxy.Json.{
  Value, string, number, null, object, array, Number, pos_int, from_entries, from_items, items, get,
  as_array,
}
use venice_e2ee_proxy.Tools.{ValidatedToolCall, to_openai_value}
use venice_e2ee_proxy.Stream.Classify.{string_field, integer_field, as_u64}

unfoldable pub first : List Value → Option Value
first [] = none
first (v ∷ vs) = some v

unfoldable pub first_choice : Value → Option Value
first_choice completion =
    and_then (and_then (get (text "choices") completion) as_array)
      (λ choices. first (items choices))

unfoldable pub message_field : Text → Value → Option Text
message_field name choice =
    and_then (get (text "message") choice) (λ message. string_field message name)

unfoldable pub assistant_content : Value → Text
assistant_content completion =
    unwrap_or (and_then (first_choice completion) (message_field (text "content"))) []

unfoldable pub index_of : Value → ℕ
index_of choice = elim (get (text "index") choice) [
  | some (number n) ↦ unwrap_or (as_u64 n) 0
  | _ ↦ 0
]

unfoldable pub reasoning_entry : Option Text → List (Text × Value)
reasoning_entry none = []
reasoning_entry (some content) = (text "reasoning_content", string content) ∷ []

-- `now` is what `unix_timestamp_now` gives if it is called.
unfoldable pub openai_tool_call_completion : Number → Value → List ValidatedToolCall → Value
openai_tool_call_completion now completion calls =
    let choice = unwrap_or (first_choice completion) null in
    let message = object (
      from_entries (
        (text "role", string (text "assistant"))
          ∷ (text "content", null)
          ∷ reasoning_entry (message_field (text "reasoning_content") choice)
        ++ (
          text "tool_calls",
          array (from_items (map (λ call. object (from_entries (to_openai_value call))) calls)),
        )
          ∷ [])) in
    let choice_entry = object (
      from_entries (
        (text "index", number (pos_int (index_of choice)))
        ∷ (text "message", message)
        ∷ (text "finish_reason", string (text "tool_calls"))
        ∷ [])) in
    object (
      from_entries (
        (
          text "id",
          string (unwrap_or (string_field completion (text "id")) (text "chatcmpl-local")),
        )
        ∷ (text "object", string (text "chat.completion"))
        ∷ (text "created", number (unwrap_or (integer_field completion (text "created")) now))
        ∷ (
          text "model",
          string (unwrap_or (string_field completion (text "model")) (text "unknown")),
        )
        ∷ (text "choices", array (from_items (choice_entry ∷ [])))
        ∷ (text "usage", unwrap_or (get (text "usage") completion) null)
        ∷ []))
