-- ===== src/Tools/Tests.antt =====
-- Tool emulation on a concrete request and output, and its theorems there.
use venice_e2ee_proxy.Base.{◌≡◌, refl, true, false, none, some, ok, err, [], ◌∷◌, All}
use venice_e2ee_proxy.Text.{text, text_eq, lower, is_whitespace}
use venice_e2ee_proxy.Text.Trim.{trim, trim_start}
use venice_e2ee_proxy.Text.Search.{find}
use venice_e2ee_proxy.Dict
use venice_e2ee_proxy.Json.{
  Fields, Value, array, from_entries, from_items, get_field, null, object, string,
}
use venice_e2ee_proxy.Chat.{ChatCompletionRequest, ChatToolDefinition, function}
use venice_e2ee_proxy.Chat.Reading.{contains}
use venice_e2ee_proxy.Tools.{ValidatedToolCall}
use venice_e2ee_proxy.Tools.Schema.{
  any_text, for_each, schema_implies_array, schema_implies_object, schema_type_includes,
  schema_type_matches, value_matches_schema_type, expected_object,
}
use venice_e2ee_proxy.Tools.Validate.{
  check_enum, check_object, check_type, sub_schemas, validate_arguments,
  validate_schema_object_shape, validate_schema_shape, validate_schema_type_name,
  validate_schema_type_shape, validate_value_against_schema,
}
use venice_e2ee_proxy.Tools.Required.{HasRequired, validate_value_against_schema-HasRequired}
use venice_e2ee_proxy.Tools.Emulation.{
  Emulation, ToolLib, ToolsConfig, check_arguments, check_schema, check_tools, emulated, find_tool,
  for_model, from_request, hermes_json, offered, parse_tool_calls, parse_tool_calls_with_format,
  validate_calls, validate_tool_call, with_tools,
}
use venice_e2ee_proxy.Tools.Offered.{Distinct, Selected, from_request-Selected}
use venice_e2ee_proxy.Tools.Calls.{IsOffered, parse_tool_calls-IsOffered}

-- A nullable object that must have an x.
abbrev schema : Fields
schema = from_entries (
    (text "type", array (from_items (string (text "object") ∷ string (text "null") ∷ [])))
    ∷ (text "required", array (from_items (string (text "x") ∷ [])))
    ∷ [])

abbrev arguments : Value
arguments = object (from_entries ((text "x", null) ∷ []))

valid : validate_value_against_schema schema (sub_schemas schema) arguments ≡ ok tt
unfolding validate_value_against_schema sub_schemas check_enum check_type check_object
    schema_type_matches any_text value_matches_schema_type schema_implies_object
    schema_implies_array schema_type_includes for_each Dict.get text_eq
valid = refl

validate_value_against_schema-HasRequired_example :
    (m : Fields) × (arguments ≡ object m) × HasRequired m (get_field (text "required") schema)
unfolding schema_implies_object schema_type_includes any_text text_eq Dict.get
validate_value_against_schema-HasRequired_example =
    validate_value_against_schema-HasRequired schema (sub_schemas schema) arguments refl valid

-- The null that the schema's type lists is refused.
null_refused : validate_arguments null schema ≡ err expected_object
unfolding validate_arguments validate_value_against_schema sub_schemas check_enum check_type
    check_object schema_type_matches any_text value_matches_schema_type schema_implies_object
    schema_type_includes Dict.get text_eq
null_refused = refl

abbrev tool : ChatToolDefinition
tool = record { name = text "f"; description = none; parameters = some schema }

abbrev request : ChatCompletionRequest
request = record {
  model = text "gemma";
  messages = [];
  stream = false;
  stream_options = record { include_usage = none };
  venice_parameters = record {
    enable_e2ee = true;
    include_venice_system_prompt = false;
    strip_thinking_response = false;
    disable_thinking = false;
    enable_web_search = text "off";
  };
  passthrough = record {
    temperature = none;
    top_p = none;
    max_tokens = none;
    max_completion_tokens = none;
    stop = none;
  };
  reasoning = none;
  reasoning_effort = none;
  tools = tool ∷ record tool { name = text "g" } ∷ [];
  tool_choice = function (text "f");
  parallel_tool_calls = none;
}

abbrev pub lib : ToolLib
lib = record {
  ParserError = Unit {0};
  Parser = Unit {0};
  create_parser = λ format tools. ok tt;
  parse_complete = λ parser output. ok (record { name = some (text "f"); arguments = output } ∷ []);
  from_str = λ s. some arguments;
  to_string = λ v. some (text "{}");
  tools_to_string = λ tools. some (text "[]");
  generate_tool_call_id = λ place. text "call_1";
}

abbrev pub config : ToolsConfig
config = record {
  enabled = true;
  mode = emulated;
  max_retries = 1;
  tool_call_max_bytes = 100;
  tool_call_marker_timeout = 0;
  validate_json_schema = true;
}

abbrev emulation : Emulation
emulation = record {
  config = config;
  tools = tool ∷ [];
  tool_schemas_json = text "[]";
  require_tool_call = true;
  prompt_format = hermes_json;
}

emulates : from_request lib config request ≡ ok (some emulation)
unfolding from_request with_tools check_tools check_schema contains text_eq offered find_tool
    for_model lower find validate_schema_shape validate_schema_object_shape
    validate_schema_type_shape validate_schema_type_name sub_schemas for_each Dict.get
emulates = refl

from_request-Selected_example :
    Distinct request.tools × Selected request.tool_choice request.tools (tool ∷ []) true
from_request-Selected_example = from_request-Selected lib config request emulation emulates

abbrev call : ValidatedToolCall
call = record { id = text "call_1"; name = text "f"; arguments_json = text "{}" }

parsed : parse_tool_calls lib emulation (text "{}") ≡ ok (call ∷ [])
unfolding parse_tool_calls parse_tool_calls_with_format validate_calls validate_tool_call trim
    trim_start is_whitespace find_tool check_arguments validate_arguments text_eq
    validate_value_against_schema sub_schemas check_enum check_type check_object schema_type_matches
    any_text value_matches_schema_type schema_implies_object schema_implies_array
    schema_type_includes for_each Dict.get
parsed = refl

parse_tool_calls-IsOffered_example : All (IsOffered lib emulation) (call ∷ [])
parse_tool_calls-IsOffered_example =
    parse_tool_calls-IsOffered lib emulation (text "{}") (call ∷ []) parsed
