-- ===== src/Chat/Parse.antt =====
-- src/openai/chat.rs: `ChatCompletionRequest::parse`, with the policy on Venice's parameters.
use venice_e2ee_proxy.Base.{
  Bool, true, false, not, Option, none, some, Result, ok, err, ◌>>=◌, ◌>>◌, ensure, ok_or,
  unwrap_or, List, [], ◌∷◌, if◌then◌else◌, ◌||◌,
}
use venice_e2ee_proxy.Text.{Text, text, text_eq}
use venice_e2ee_proxy.Json.{Value, Fields, get_field, as_object}
use venice_e2ee_proxy.Chat.{
  ChatCompletionRequest, ChatRequestError, ChatToolChoice, ChatToolChoiceWire, ChatToolDefinition,
  OpenAiStreamOptions, RawVeniceParameters, RawVeniceWebSearch, ReasoningOptions, Serde,
  VeniceParameters, auto, function, no_tool, required, from_wire, invalid_field, invalid_request,
  missing_field, unsupported_venice_parameter, e2ee_disabled, system_prompt_enabled,
  web_search_enabled, web_search_text, search_text, search_flag, effort_mismatch, blank_tool_name,
  blank_choice_name,
}
use venice_e2ee_proxy.Chat.Reading.{
  is_blank, reject_unknown_fields, validate_ignored_client_only_fields, required_non_empty_string,
  optional_bool, optional_non_empty_string, passthrough_fields, deserialize_typed_value,
}
use venice_e2ee_proxy.Chat.Messages.{normalize_messages}

unfoldable pub default_parameters : VeniceParameters
default_parameters = record {
  enable_e2ee = true;
  include_venice_system_prompt = false;
  strip_thinking_response = false;
  disable_thinking = false;
  enable_web_search = text "off";
}

unfoldable pub web_search : Option RawVeniceWebSearch → Result ChatRequestError Text
web_search none = ok (text "off")
web_search (some (search_text value)) =
    if text_eq value (text "off")
    then ok (text "off")
    else err (
        unsupported_venice_parameter (text "venice_parameters.enable_web_search")
          (web_search_text value))
web_search (some (search_flag false)) = ok (text "off")
web_search (some (search_flag true)) =
    err
      (unsupported_venice_parameter (text "venice_parameters.enable_web_search") web_search_enabled)

-- The policy on parameters that serde has read.
unfoldable pub allowed_parameters : RawVeniceParameters → Result ChatRequestError VeniceParameters
allowed_parameters raw = do
  let enable_e2ee = unwrap_or raw.enable_e2ee true
  ensure enable_e2ee
      (unsupported_venice_parameter (text "venice_parameters.enable_e2ee") e2ee_disabled)
  let include_venice_system_prompt = unwrap_or raw.include_venice_system_prompt false
  ensure (not include_venice_system_prompt) (
      unsupported_venice_parameter (text "venice_parameters.include_venice_system_prompt")
        system_prompt_enabled)
  enable_web_search ← web_search raw.enable_web_search
  ok (record {
    enable_e2ee = enable_e2ee;
    include_venice_system_prompt = include_venice_system_prompt;
    strip_thinking_response = unwrap_or raw.strip_thinking_response false;
    disable_thinking = unwrap_or raw.disable_thinking false;
    enable_web_search = enable_web_search;
  })

-- `VeniceParameters::parse`.
unfoldable pub parse_venice_parameters :
    Serde → Option Value → Result ChatRequestError VeniceParameters
parse_venice_parameters serde none = ok default_parameters
parse_venice_parameters serde (some value) = do
  raw ← deserialize_typed_value (text "venice_parameters") value (serde.venice_parameters value)
  allowed_parameters raw

-- `OpenAiStreamOptions::parse`.
unfoldable pub parse_stream_options :
    Serde → Option Value → Result ChatRequestError OpenAiStreamOptions
parse_stream_options serde none = ok (record { include_usage = none })
parse_stream_options serde (some value) =
    deserialize_typed_value (text "stream_options") value (serde.stream_options value)

-- `ReasoningOptions::parse`.
unfoldable pub parse_reasoning :
    Serde → Option Value → Result ChatRequestError (Option ReasoningOptions)
parse_reasoning serde none = ok none
parse_reasoning serde (some value) = do
  options ← deserialize_typed_value (text "reasoning") value (serde.reasoning_options value)
  ok (some options)

unfoldable pub parse_tools :
    Serde → Option Value → Result ChatRequestError (List ChatToolDefinition)
parse_tools serde none = ok []
parse_tools serde (some value) =
    deserialize_typed_value (text "tools") value (serde.tool_definitions value)

abbrev chosen : Option ChatToolChoiceWire → ChatToolChoice
chosen none = auto
chosen (some wire) = from_wire wire

unfoldable pub parse_tool_choice : Serde → Option Value → Result ChatRequestError ChatToolChoice
parse_tool_choice serde none = ok auto
parse_tool_choice serde (some value) = do
  wire ← deserialize_typed_value (text "tool_choice") value (serde.tool_choice value)
  ok (chosen wire)

unfoldable pub any_blank_name : List ChatToolDefinition → Bool
any_blank_name [] = false
any_blank_name (tool ∷ tools) = is_blank tool.name || any_blank_name tools

unfoldable pub validate_tools : List ChatToolDefinition → Result ChatRequestError (Unit {0})
validate_tools tools =
    if any_blank_name tools then err (invalid_field (text "tools") blank_tool_name) else ok tt

unfoldable pub validate_tool_choice : ChatToolChoice → Result ChatRequestError (Unit {0})
validate_tool_choice (function name) =
    if is_blank name then err (invalid_field (text "tool_choice") blank_choice_name) else ok tt
validate_tool_choice auto = ok tt
validate_tool_choice no_tool = ok tt
validate_tool_choice required = ok tt

abbrev pub nested_effort : Option ReasoningOptions → Option Text
nested_effort none = none
nested_effort (some reasoning) = reasoning.effort

unfoldable pub same_effort : Option Text → Option Text → Result ChatRequestError (Unit {0})
same_effort none flat = ok tt
same_effort (some nested) none = ok tt
same_effort (some nested) (some flat) =
    if text_eq nested flat
    then ok tt
    else err (invalid_field (text "reasoning_effort") effort_mismatch)

unfoldable pub validate_reasoning_effort_consistency :
    Option ReasoningOptions → Option Text → Result ChatRequestError (Unit {0})
validate_reasoning_effort_consistency reasoning flat = same_effort (nested_effort reasoning) flat

abbrev pub allowed_fields : List Text
allowed_fields =
    text "model"
    ∷ text "messages"
    ∷ text "stream"
    ∷ text "stream_options"
    ∷ text "temperature"
    ∷ text "top_p"
    ∷ text "max_tokens"
    ∷ text "max_completion_tokens"
    ∷ text "stop"
    ∷ text "reasoning"
    ∷ text "reasoning_effort"
    ∷ text "tools"
    ∷ text "tool_choice"
    ∷ text "parallel_tool_calls"
    ∷ text "metadata"
    ∷ text "venice_parameters"
    ∷ []

-- The fields of the request's object, once its keys are known to be allowed.
unfoldable pub parse_fields : Serde → Fields → Result ChatRequestError ChatCompletionRequest
parse_fields serde m = do
  validate_ignored_client_only_fields m
  model ← required_non_empty_string m (text "model")
  messages_value ← ok_or (get_field (text "messages") m) (missing_field (text "messages"))
  messages ← normalize_messages serde messages_value
  stream ← optional_bool m (text "stream")
  stream_options ← parse_stream_options serde (get_field (text "stream_options") m)
  venice_parameters ← parse_venice_parameters serde (get_field (text "venice_parameters") m)
  passthrough ← passthrough_fields serde m
  reasoning ← parse_reasoning serde (get_field (text "reasoning") m)
  reasoning_effort ← optional_non_empty_string m (text "reasoning_effort")
  validate_reasoning_effort_consistency reasoning reasoning_effort
  tools ← parse_tools serde (get_field (text "tools") m)
  validate_tools tools
  tool_choice ← parse_tool_choice serde (get_field (text "tool_choice") m)
  validate_tool_choice tool_choice
  parallel_tool_calls ← optional_bool m (text "parallel_tool_calls")
  ok (record {
    model = model;
    messages = messages;
    stream = unwrap_or stream false;
    stream_options = stream_options;
    venice_parameters = venice_parameters;
    passthrough = passthrough;
    reasoning = reasoning;
    reasoning_effort = reasoning_effort;
    tools = tools;
    tool_choice = tool_choice;
    parallel_tool_calls = parallel_tool_calls;
  })

unfoldable pub parse : Serde → Value → Result ChatRequestError ChatCompletionRequest
parse serde value = do
  m ← ok_or (as_object value) invalid_request
  reject_unknown_fields m allowed_fields
  parse_fields serde m
