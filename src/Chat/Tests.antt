-- ===== src/Chat/Tests.antt =====
-- A chat request and its theorems on concrete values.
use venice_e2ee_proxy.Base.{
  ℕ, ◌≡◌, refl, ◌≤◌, Bool, true, false, none, some, ok, err, List, [], ◌∷◌, ◌++◌, All, length,
  arith,
}
use venice_e2ee_proxy.Text.{text, text_eq, is_whitespace}
use venice_e2ee_proxy.Text.Utf8.{as_bytes, encode_utf8}
use venice_e2ee_proxy.Text.Trim.{trim, trim_start}
use venice_e2ee_proxy.Dict
use venice_e2ee_proxy.Json.{
  Value, Fields, null, object, array, string, boolean, from_entries, from_items,
}
use venice_e2ee_proxy.Chat.{
  ChatCompletionRequest, NormalizedChatMessage, RawAssistantToolCall, Serde, unsupported_field,
  auto,
}
use venice_e2ee_proxy.Chat.Reading.{
  contains, first_unknown, is_blank, non_empty_typed_string, optional_bool,
  optional_non_empty_string, optional_number, optional_stop, optional_typed, optional_u64,
  passthrough_fields, reject_unknown_fields, required_non_empty_string,
  validate_ignored_client_only_fields,
}
use venice_e2ee_proxy.Chat.Messages.{
  by_role, content_text, joined_content, normalize_assistant_message,
  normalize_assistant_tool_calls, normalize_from, normalize_message, normalize_messages,
  normalize_plain_message, optional_content_text, render_all, render_assistant_tool_call,
  render_calls, required_content_text, xml_escape_attr,
}
use venice_e2ee_proxy.Chat.Parse.{
  any_blank_name, default_parameters, parse, parse_fields, parse_reasoning, parse_stream_options,
  parse_tool_choice, parse_tools, parse_venice_parameters, same_effort,
  validate_reasoning_effort_consistency, validate_tool_choice, validate_tools,
}
use venice_e2ee_proxy.Chat.Upstream.{
  PreparedVeniceChatRequest, to_venice_e2ee_request_with_messages,
}
use venice_e2ee_proxy.Chat.Checks.{HasUpstreamRole}
use venice_e2ee_proxy.Chat.Roles.{IsArrayOf, normalize_messages-ok}
use venice_e2ee_proxy.Chat.Valid.{IsValid, parse-IsValid}
use venice_e2ee_proxy.Chat.Sealed.{IsSendable, SameParameters, Sealed, to_venice-Sealed}
use venice_e2ee_proxy.Chat.Escape.{IsAttr, xml_escape_attr-IsAttr, xml_escape_attr-injective}
use venice_e2ee_proxy.Chat.Rejected.{
  parse-unsupported_field, normalize_assistant_message-empty_content,
}
use venice_e2ee_proxy.E2ee.Keys.{public_key_hex}
use venice_e2ee_proxy.E2ee.Sample.{codec, nonce, nonce-IsByte, crates, crates_laws, tag}

-- A deserialiser that reads one tool call and prints an empty object.
abbrev call : RawAssistantToolCall
call = record { id = text "call_1"; kind = text "function"; name = text "f"; arguments = text "{}" }

abbrev pub serde : Serde
serde = record {
  tool_definitions = λ v. none;
  tool_choice = λ v. none;
  stream_options = λ v. none;
  reasoning_options = λ v. none;
  venice_parameters = λ v. none;
  number_value = λ v. none;
  u64_value = λ v. none;
  stop_sequence = λ v. none;
  assistant_tool_calls = λ v. some (call ∷ []);
  text_content_part = λ v. none;
  from_str = λ s. some null;
  to_string = λ v. some (text "{}");
}

abbrev user_message : Value
user_message =
    object (
      from_entries
        ((text "role", string (text "user")) ∷ (text "content", string (text "Hi")) ∷ []))

abbrev messages : Value
messages = array (from_items (user_message ∷ []))

abbrev normalized : List NormalizedChatMessage
normalized = record { role = text "user"; content = text "Hi" } ∷ []

abbrev pub request : ChatCompletionRequest
request = record {
  model = text "glm";
  messages = normalized;
  stream = true;
  stream_options = record { include_usage = none };
  venice_parameters = record {
    enable_e2ee = true;
    include_venice_system_prompt = false;
    strip_thinking_response = false;
    disable_thinking = false;
    enable_web_search = text "off";
  };
  passthrough = record {
    temperature = none;
    top_p = none;
    max_tokens = none;
    max_completion_tokens = none;
    stop = none;
  };
  reasoning = none;
  reasoning_effort = none;
  tools = [];
  tool_choice = auto;
  parallel_tool_calls = none;
}

abbrev pub body : Value
body = object (
    from_entries (
      (text "messages", messages)
      ∷ (text "model", string (text "glm"))
      ∷ (text "stream", boolean true)
      ∷ []))

pub accepted : parse serde body ≡ ok request
unfolding parse parse_fields reject_unknown_fields first_unknown contains text_eq
    validate_ignored_client_only_fields Dict.get required_non_empty_string is_blank trim trim_start
    is_whitespace normalize_messages normalize_from normalize_message by_role
    normalize_plain_message required_content_text optional_content_text content_text optional_bool
    parse_stream_options parse_venice_parameters default_parameters passthrough_fields
    optional_number optional_typed optional_u64 optional_stop parse_reasoning
    optional_non_empty_string validate_reasoning_effort_consistency same_effort parse_tools
    validate_tools any_blank_name parse_tool_choice validate_tool_choice
accepted = refl

parse-IsValid_example : IsValid request
parse-IsValid_example = parse-IsValid serde body request accepted

messages_read : normalize_messages serde messages ≡ ok normalized
unfolding text_eq Dict.get required_non_empty_string is_blank trim trim_start is_whitespace
    reject_unknown_fields first_unknown contains normalize_messages normalize_from normalize_message
    by_role normalize_plain_message required_content_text optional_content_text content_text
messages_read = refl

normalize_messages-ok_example :
    All HasUpstreamRole normalized
    × (1 ≤ length normalized)
    × IsArrayOf serde messages (length normalized)
normalize_messages-ok_example = normalize_messages-ok serde messages normalized messages_read

abbrev fresh : ℕ → Bool × List ℕ
fresh place = (true, nonce)

pub sendable : All IsSendable normalized
unfolding as_bytes encode_utf8
sendable = ((ground arith, omega arith), tt)

to_venice-Sealed_example :
    (result : PreparedVeniceChatRequest) × (to_venice_e2ee_request_with_messages crates fresh
        request codec
        (public_key_hex crates true)
        []
        []
      ≡ ok result)
    × Sealed crates crates_laws codec true fresh normalized result.upstream.messages
    × SameParameters request result.upstream
    × (result.client_stream ≡ true)
to_venice-Sealed_example =
    to_venice-Sealed crates crates_laws codec true fresh request [] []
      (λ place. (refl, nonce-IsByte)) (λ shared info n message _ _. (tag ++ message, refl)) sendable

xml_escape_attr-IsAttr_example : All IsAttr (xml_escape_attr (text "a\"><b"))
xml_escape_attr-IsAttr_example = xml_escape_attr-IsAttr (text "a\"><b")

escaped : xml_escape_attr (text "a\"&") ≡ text "a&quot;&amp;"
unfolding xml_escape_attr
escaped = refl

xml_escape_attr-injective_example : text "a<" ≡ text "a<"
xml_escape_attr-injective_example = xml_escape_attr-injective (text "a<") (text "a<") refl

abbrev unknown : Fields
unknown = from_entries ((text "model", string (text "glm")) ∷ (text "n", null) ∷ [])

parse-unsupported_field_example : parse serde (object unknown) ≡ err (unsupported_field (text "n"))
unfolding contains text_eq
parse-unsupported_field_example =
    parse-unsupported_field serde unknown ((text "model", string (text "glm")) ∷ []) [] (text "n")
      null refl (refl, tt) refl

abbrev with_calls : Fields
with_calls = from_entries (
    (text "role", string (text "assistant"))
    ∷ (text "content", string [])
    ∷ (text "tool_calls", array (from_items (null ∷ [])))
    ∷ [])

abbrev emptied : NormalizedChatMessage
emptied = record { role = text "assistant"; content = [] }

emptied_read : normalize_assistant_message serde 0 with_calls ≡ ok emptied
unfolding normalize_assistant_message reject_unknown_fields first_unknown contains text_eq
    optional_content_text content_text Dict.get normalize_assistant_tool_calls render_calls
    render_all render_assistant_tool_call non_empty_typed_string is_blank trim trim_start
    is_whitespace joined_content
emptied_read = refl

normalize_assistant_message-empty_content_example : emptied.content ≡ []
unfolding Dict.get text_eq
normalize_assistant_message-empty_content_example =
    normalize_assistant_message-empty_content serde 0 with_calls emptied refl emptied_read
