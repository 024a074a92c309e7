-- ===== src/Chat.antt =====
-- src/openai/chat.rs: the chat request that the proxy accepts and the encrypted request that it
-- sends. serde's deserialisation of each typed field is a parameter, as is serde_json's printer.
pub mod Codes
pub mod Reading
pub mod Messages
pub mod Parse
pub mod Upstream
pub mod Checks
pub mod Roles
pub mod Valid
pub mod Sealed
pub mod Escape
pub mod Rejected
pub mod Tests
use venice_e2ee_proxy.Base.{ℕ, Bool, Option, List}
use venice_e2ee_proxy.Text.{Text, text}
use venice_e2ee_proxy.Json.{Value, Fields, Number}

pub record NormalizedChatMessage : Type 0 where
  pub role : Text
  pub content : Text

-- `ChatToolDefinition::Function` with its `ChatToolFunctionDefinition`; the parameters are the JSON
-- object of a schema.
pub record ChatToolDefinition : Type 0 where
  pub name : Text
  pub description : Option Text
  pub parameters : Option Fields

pub data ChatToolChoice : Type 0 where
  auto no_tool required : ChatToolChoice
  function : Text → ChatToolChoice

pub data ChatToolChoiceMode : Type 0 where
  auto_mode none_mode required_mode : ChatToolChoiceMode

-- `Object` has the name of its function.
pub data ChatToolChoiceWire : Type 0 where
  mode : ChatToolChoiceMode → ChatToolChoiceWire
  named : Text → ChatToolChoiceWire

-- `From<ChatToolChoiceWire>`.
unfoldable pub from_wire : ChatToolChoiceWire → ChatToolChoice
from_wire (mode auto_mode) = auto
from_wire (mode none_mode) = no_tool
from_wire (mode required_mode) = required
from_wire (named name) = function name

pub record OpenAiStreamOptions : Type 0 where
  pub include_usage : Option Bool

pub record ReasoningOptions : Type 0 where
  pub enabled : Option Bool
  pub effort : Option Text

pub record VeniceParameters : Type 0 where
  pub enable_e2ee : Bool
  pub include_venice_system_prompt : Bool
  pub strip_thinking_response : Bool
  pub disable_thinking : Bool
  pub enable_web_search : Text

pub data RawVeniceWebSearch : Type 0 where
  search_text : Text → RawVeniceWebSearch
  search_flag : Bool → RawVeniceWebSearch

pub record RawVeniceParameters : Type 0 where
  pub enable_e2ee : Option Bool
  pub include_venice_system_prompt : Option Bool
  pub strip_thinking_response : Option Bool
  pub disable_thinking : Option Bool
  pub enable_web_search : Option RawVeniceWebSearch

pub data StopSequence : Type 0 where
  stop_text : Text → StopSequence
  stop_texts : List Text → StopSequence

pub record OpenAiPassthroughFields : Type 0 where
  pub temperature : Option Value
  pub top_p : Option Value
  pub max_tokens : Option ℕ
  pub max_completion_tokens : Option ℕ
  pub stop : Option StopSequence

-- With the fields of its function.
pub record RawAssistantToolCall : Type 0 where
  pub id : Text
  pub kind : Text
  pub name : Text
  pub arguments : Text

pub record ChatCompletionRequest : Type 0 where
  pub model : Text
  pub messages : List NormalizedChatMessage
  pub stream : Bool
  pub stream_options : OpenAiStreamOptions
  pub venice_parameters : VeniceParameters
  pub passthrough : OpenAiPassthroughFields
  pub reasoning : Option ReasoningOptions
  pub reasoning_effort : Option Text
  pub tools : List ChatToolDefinition
  pub tool_choice : ChatToolChoice
  pub parallel_tool_calls : Option Bool

-- serde_json: `from_value` at each type that the code reads (nothing where it fails), `from_str`
-- and `to_string`.
pub record Serde : Type 0 where
  pub tool_definitions : Value → Option (List ChatToolDefinition)
  pub tool_choice : Value → Option (Option ChatToolChoiceWire)
  pub stream_options : Value → Option OpenAiStreamOptions
  pub reasoning_options : Value → Option ReasoningOptions
  pub venice_parameters : Value → Option RawVeniceParameters
  pub number_value : Value → Option Number
  pub u64_value : Value → Option ℕ
  pub stop_sequence : Value → Option StopSequence
  pub assistant_tool_calls : Value → Option (List RawAssistantToolCall)
  -- The text of a `RawTextContentPart`.
  pub text_content_part : Value → Option Text
  pub from_str : Text → Option Value
  pub to_string : Value → Option Text

-- `json_kind` of src/util.rs.
pub data JsonKind : Type 0 where
  null_kind boolean_kind number_kind string_kind array_kind object_kind : JsonKind

unfoldable pub json_kind : Value → JsonKind
json_kind Value.null = null_kind
json_kind (Value.boolean b) = boolean_kind
json_kind (Value.number n) = number_kind
json_kind (Value.string s) = string_kind
json_kind (Value.array vs) = array_kind
json_kind (Value.object m) = object_kind

-- The message of an error, with what the code formats into it.
pub data Why : Type 0 where
  expected_string expected_boolean expected_shape content_not_text : JsonKind → Why
  blank must_be_array must_have_message empty_assistant bad_metadata : Why
  message_not_object : ℕ → Why
  content_required content_null content_missing empty_parts bad_part : Why
  calls_not_array bad_calls no_calls bad_arguments unprintable_arguments : Why
  not_a_function : Text → Why
  blank_field : Text → Why
  effort_mismatch blank_tool_name blank_choice_name : Why
  choice_without_tools unprintable_tools : Why
  duplicate_tool bad_tool_schema missing_tool : Text → Why
  e2ee_disabled system_prompt_enabled web_search_enabled : Why
  web_search_text : Text → Why

pub data ChatRequestError : Type 0 where
  missing_field : Text → ChatRequestError
  invalid_request : ChatRequestError
  invalid_field : Text → Why → ChatRequestError
  unsupported_field : Text → ChatRequestError
  unsupported_message_role : Text → ChatRequestError
  -- The index of the message, and of the content part where there is one.
  unsupported_message_content : ℕ → Option ℕ → Why → ChatRequestError
  invalid_tool_call_history : Why → ChatRequestError
  unsupported_venice_parameter : Text → Why → ChatRequestError

unfoldable pub api_error_code : ChatRequestError → Text
api_error_code (missing_field f) = text "invalid_request"
api_error_code invalid_request = text "invalid_request"
api_error_code (invalid_field f why) = text "invalid_request"
api_error_code (unsupported_field f) = text "unsupported_request_field"
api_error_code (unsupported_message_role role) = text "unsupported_message_role"
api_error_code (unsupported_message_content i part why) = text "unsupported_message_content"
api_error_code (invalid_tool_call_history why) = text "invalid_tool_call_history"
api_error_code (unsupported_venice_parameter f why) = text "unsupported_venice_parameter"
