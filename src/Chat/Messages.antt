-- ===== src/Chat/Messages.antt =====
-- src/openai/chat.rs: the normalisation of the messages to a role and a text.
use venice_e2ee_proxy.Base.{
  ℕ, suc, Bool, true, false, not, ◌&&◌, ◌==◌, Option, none, some, Result, ok, err, ◌>>=◌, ◌>>◌,
  ensure, ok_or, is_none, unwrap_or, List, [], ◌∷◌, ◌++◌, if◌then◌else◌,
}
use venice_e2ee_proxy.Text.{Text, text, text_eq, is_empty}
use venice_e2ee_proxy.Json.{
  Value, Fields, Items, get_field, items, as_array, as_object, string, null, array,
}
use venice_e2ee_proxy.Chat.{
  ChatRequestError, NormalizedChatMessage, RawAssistantToolCall, Serde, json_kind, invalid_field,
  unsupported_message_content, unsupported_message_role, invalid_tool_call_history, must_be_array,
  must_have_message, empty_assistant, message_not_object, content_required, content_null,
  content_missing, content_not_text, empty_parts, bad_part, calls_not_array, bad_calls, no_calls,
  not_a_function, bad_arguments, unprintable_arguments,
}
use venice_e2ee_proxy.Chat.Reading.{
  reject_unknown_fields, required_non_empty_string, non_empty_typed_string,
}

abbrev pub escape_char : ℕ → Text
escape_char c =
    if c == b'&'
    then text "&amp;"
    else if c == b'"'
    then text "&quot;"
    else if c == b'<'
    then text "&lt;"
    else if c == b'>'
    then text "&gt;"
    else c ∷ []

unfoldable pub xml_escape_attr : Text → Text
xml_escape_attr [] = []
xml_escape_attr (c ∷ s) = escape_char c ++ xml_escape_attr s

-- The texts of the parts from a place on, joined.
unfoldable pub text_parts : Serde → ℕ → ℕ → List Value → Result ChatRequestError Text
text_parts serde message index [] = ok []
text_parts serde message index (part ∷ parts) = do
  s ←
      ok_or (serde.text_content_part part)
        (unsupported_message_content message (some index) bad_part)
  rest ← text_parts serde message (suc index) parts
  ok (s ++ rest)

unfoldable pub normalize_text_parts : Serde → ℕ → List Value → Result ChatRequestError Text
normalize_text_parts serde message [] = err (unsupported_message_content message none empty_parts)
normalize_text_parts serde message (part ∷ parts) = text_parts serde message 0 (part ∷ parts)

unfoldable pub content_text : Serde → ℕ → Bool → Value → Result ChatRequestError (Option Text)
content_text serde message allow_null (string content) = ok (some content)
content_text serde message true null = ok none
content_text serde message false null = err (unsupported_message_content message none content_null)
content_text serde message allow_null (array parts) = do
  s ← normalize_text_parts serde message (items parts)
  ok (some s)
content_text serde message allow_null value =
    err (unsupported_message_content message none (content_not_text (json_kind value)))

unfoldable pub optional_content_text :
    Serde → Fields → ℕ → Bool → Result ChatRequestError (Option Text)
optional_content_text serde m message allow_null = elim (get_field (text "content") m) [
  | none ↦
      if allow_null then ok none else err (unsupported_message_content message none content_missing)
  | some value ↦ content_text serde message allow_null value
]

unfoldable pub required_content_text : Serde → Fields → ℕ → Result ChatRequestError Text
required_content_text serde m message = do
  content ← optional_content_text serde m message false
  ok_or content (unsupported_message_content message none content_required)

unfoldable pub render_assistant_tool_call :
    Serde → RawAssistantToolCall → Result ChatRequestError Text
render_assistant_tool_call serde call = do
  id ← non_empty_typed_string call.id (text "tool_call.id")
  ensure (text_eq call.kind (text "function"))
      (invalid_tool_call_history (not_a_function call.kind))
  name ← non_empty_typed_string call.name (text "tool_call.function.name")
  arguments ← non_empty_typed_string call.arguments (text "tool_call.function.arguments")
  parsed ← ok_or (serde.from_str arguments) (invalid_tool_call_history bad_arguments)
  canonical ← ok_or (serde.to_string parsed) (invalid_tool_call_history unprintable_arguments)
  ok (
      text "<previous_tool_call id=\""
      ++ xml_escape_attr id
      ++ text "\" name=\""
      ++ xml_escape_attr name
      ++ text "\">\n"
      ++ canonical
      ++ text "\n</previous_tool_call>")

-- `collect` of the rendered calls, joined by line ends.
unfoldable pub render_all : Serde → List RawAssistantToolCall → Result ChatRequestError Text
render_all serde [] = ok []
render_all serde (call ∷ []) = render_assistant_tool_call serde call
render_all serde (call ∷ calls) = do
  one ← render_assistant_tool_call serde call
  rest ← render_all serde calls
  ok (one ++ text "\n" ++ rest)

unfoldable pub render_calls :
    Serde → List RawAssistantToolCall → Result ChatRequestError (Option Text)
render_calls serde [] = err (invalid_tool_call_history no_calls)
render_calls serde (call ∷ calls) = do
  rendered ← render_all serde (call ∷ calls)
  ok (some rendered)

unfoldable pub normalize_assistant_tool_calls :
    Serde → Option Value → Result ChatRequestError (Option Text)
normalize_assistant_tool_calls serde none = ok none
normalize_assistant_tool_calls serde (some (array calls)) = do
  typed ← ok_or (serde.assistant_tool_calls (array calls)) (invalid_tool_call_history bad_calls)
  render_calls serde typed
normalize_assistant_tool_calls serde (some value) = err (invalid_tool_call_history calls_not_array)

-- The text of an assistant message's content and rendered calls. With neither, the code is not
-- reached.
unfoldable pub joined_content : Option Text → Option Text → Text
joined_content (some content) (some calls) =
    if is_empty content then content else content ++ text "\n\n" ++ calls
joined_content (some content) none = content
joined_content none (some calls) = calls
joined_content none none = []

unfoldable pub normalize_assistant_message :
    Serde → ℕ → Fields → Result ChatRequestError NormalizedChatMessage
normalize_assistant_message serde index m = do
  reject_unknown_fields m (text "role" ∷ text "content" ∷ text "tool_calls" ∷ [])
  content ← optional_content_text serde m index true
  tool_calls ← normalize_assistant_tool_calls serde (get_field (text "tool_calls") m)
  ensure (not (is_empty (unwrap_or content []) && is_none tool_calls))
      (invalid_field (text "messages") empty_assistant)
  ok (record { role = text "assistant"; content = joined_content content tool_calls })

unfoldable pub normalize_tool_result_message :
    Serde → ℕ → Fields → Result ChatRequestError NormalizedChatMessage
normalize_tool_result_message serde index m = do
  reject_unknown_fields m (text "role" ∷ text "tool_call_id" ∷ text "content" ∷ [])
  tool_call_id ← required_non_empty_string m (text "tool_call_id")
  content ← required_content_text serde m index
  ok (record {
    role = text "user";
    content =
        text "<tool_result id=\""
        ++ xml_escape_attr tool_call_id
        ++ text "\">\n"
        ++ content
        ++ text "\n</tool_result>\n\nUse the tool result above to continue the answer.";
  })

-- A message of the system, the developer or the user.
unfoldable pub normalize_plain_message :
    Serde → ℕ → Fields → Text → Result ChatRequestError NormalizedChatMessage
normalize_plain_message serde index m role = do
  reject_unknown_fields m (text "role" ∷ text "content" ∷ [])
  content ← required_content_text serde m index
  ok (record { role = role; content = content })

unfoldable pub by_role : Serde → ℕ → Fields → Text → Result ChatRequestError NormalizedChatMessage
by_role serde index m role =
    if text_eq role (text "system")
    then normalize_plain_message serde index m role
    else if text_eq role (text "developer")
    then normalize_plain_message serde index m role
    else if text_eq role (text "user")
    then normalize_plain_message serde index m role
    else if text_eq role (text "assistant")
    then normalize_assistant_message serde index m
    else if text_eq role (text "tool")
    then normalize_tool_result_message serde index m
    else err (unsupported_message_role role)

unfoldable pub normalize_message : Serde → ℕ → Value → Result ChatRequestError NormalizedChatMessage
normalize_message serde index value = do
  m ← ok_or (as_object value) (invalid_field (text "messages") (message_not_object index))
  role ← required_non_empty_string m (text "role")
  by_role serde index m role

abbrev pub no_items : Items → Bool
no_items Items.nil = true
no_items (Items.cons v vs) = false

-- The messages from an index on.
unfoldable pub normalize_from :
    Serde → ℕ → List Value → Result ChatRequestError (List NormalizedChatMessage)
normalize_from serde index [] = ok []
normalize_from serde index (value ∷ values) = do
  one ← normalize_message serde index value
  rest ← normalize_from serde (suc index) values
  ok (one ∷ rest)

unfoldable pub normalize_messages :
    Serde → Value → Result ChatRequestError (List NormalizedChatMessage)
normalize_messages serde value = do
  messages ← ok_or (as_array value) (invalid_field (text "messages") must_be_array)
  ensure (not (no_items messages)) (invalid_field (text "messages") must_have_message)
  normalize_from serde 0 (items messages)
