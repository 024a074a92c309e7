-- ===== src/Tools/Emulation.antt =====
-- src/tools.rs: ToolEmulationContext, from a request to validated tool calls. The vendored parsers,
-- serde_json and the generated ids are the parameter `ToolLib`; the prompts are not modelled.
use venice_e2ee_proxy.Base.{
  ℕ, suc, Bool, true, false, not, Option, none, some, is_some, Result, ok, err, ◌>>=◌, ◌>>◌, ensure,
  ok_or, map_err, map, unwrap_or, List, [], ◌∷◌, if◌then◌else◌,
}
use venice_e2ee_proxy.Text.{Text, text, text_eq, lower, is_empty}
use venice_e2ee_proxy.Text.Trim.{trim}
use venice_e2ee_proxy.Text.Search.{find}
use venice_e2ee_proxy.Json.{Value, as_object}
use venice_e2ee_proxy.Chat.{
  ChatCompletionRequest, ChatRequestError, ChatToolChoice, ChatToolDefinition, auto,
  bad_tool_schema, choice_without_tools, duplicate_tool, function, invalid_field, missing_tool,
  no_tool, required, unprintable_tools,
}
use venice_e2ee_proxy.Chat.Reading.{contains}
use venice_e2ee_proxy.Tools.{ToolEmulationContext, ValidatedToolCall}
use venice_e2ee_proxy.Tools.Schema.{SchemaProblem}
use venice_e2ee_proxy.Tools.Validate.{validate_arguments, validate_schema_shape}

abbrev pub tool_call_start : Text
tool_call_start = text "<tool_call>"

pub data ToolMode : Type 0 where
  emulated no_tools : ToolMode

pub record ToolsConfig : Type 0 where
  pub enabled : Bool
  pub mode : ToolMode
  pub max_retries : ℕ
  pub tool_call_max_bytes : ℕ
  pub tool_call_marker_timeout : ℕ
  pub validate_json_schema : Bool

pub data ToolPromptFormat : Type 0 where
  hermes_json glm_xml qwen_xml : ToolPromptFormat

-- `str::contains`.
abbrev has_text : Text → Text → Bool
has_text s part = is_some (find part s)

unfoldable pub for_model : Text → ToolPromptFormat
for_model model =
    let low = map lower model in
    if has_text low (text "glm")
    then glm_xml
    else if has_text low (text "qwen")
    then qwen_xml
    else hermes_json

-- What the vendored parsers yield for a call.
pub record ToolCallDelta : Type 0 where
  pub name : Option Text
  pub arguments : Text

pub record ToolLib : Type 1 where
  pub ParserError : Type 0
  pub Parser : Type 0
  pub create_parser : ToolPromptFormat → List ChatToolDefinition → Result ParserError Parser
  pub parse_complete : Parser → Text → Result ParserError (List ToolCallDelta)
  pub from_str : Text → Option Value
  pub to_string : Value → Option Text
  pub tools_to_string : List ChatToolDefinition → Option Text
  -- The id of the call at a place of an output.
  pub generate_tool_call_id : ℕ → Text

pub data ToolError (ParserError : Type 0) : Type 0 where
  not_created not_parsed : ParserError → ToolError ParserError
  blank_name bad_arguments arguments_not_object unprintable : ToolError ParserError
  unknown_name : Text → ToolError ParserError
  schema_problem : SchemaProblem → ToolError ParserError

-- `ToolEmulationContext` in full.
pub record Emulation : Type 0 where
  pub config : ToolsConfig
  pub tools : List ChatToolDefinition
  pub tool_schemas_json : Text
  pub require_tool_call : Bool
  pub prompt_format : ToolPromptFormat

-- `tools.iter().find(|tool| tool.name() == name)`.
unfoldable pub find_tool : Text → List ChatToolDefinition → Option ChatToolDefinition
find_tool name [] = none
find_tool name (tool ∷ tools) =
    let rest = find_tool name tools in if text_eq tool.name name then some tool else rest

abbrev tools_field : Text
tools_field = text "tools"

abbrev choice_field : Text
choice_field = text "tool_choice"

unfoldable pub check_schema : ToolsConfig → ChatToolDefinition → Result ChatRequestError (Unit {0})
check_schema config tool = elim tool.parameters [
  | none ↦ ok tt
  | some schema ↦
      if config.validate_json_schema
      then map_err (λ e. invalid_field tools_field (bad_tool_schema tool.name))
          (validate_schema_shape schema)
      else ok tt
]

-- The loop over the tools, with the names seen before.
unfoldable pub check_tools :
    ToolsConfig → List Text → List ChatToolDefinition → Result ChatRequestError (Unit {0})
check_tools config seen [] = ok tt
check_tools config seen (tool ∷ tools) = do
  ensure (not (contains seen tool.name)) (invalid_field tools_field (duplicate_tool tool.name))
  check_schema config tool
  check_tools config (tool.name ∷ seen) tools

-- The tools that are offered, and whether a call is required. With the choice of no tool, the code
-- is not reached.
unfoldable pub offered :
    ChatToolChoice
    → List ChatToolDefinition
    → Result ChatRequestError (List ChatToolDefinition × Bool)
offered auto tools = ok ((tools, false))
offered required tools = ok ((tools, true))
offered (function name) tools = do
  tool ← ok_or (find_tool name tools) (invalid_field choice_field (missing_tool name))
  ok ((tool ∷ [], true))
offered no_tool tools = ok (([], false))

-- A choice that needs a tool, without one.
unfoldable pub without_tools : ChatToolChoice → Result ChatRequestError (Option Emulation)
without_tools required = err (invalid_field choice_field choice_without_tools)
without_tools (function name) = err (invalid_field choice_field choice_without_tools)
without_tools auto = ok none
without_tools no_tool = ok none

module _ (lib : ToolLib) where
  unfoldable pub with_tools :
      ToolsConfig → ChatCompletionRequest → Result ChatRequestError (Option Emulation)
  with_tools config request = do
    check_tools config [] request.tools
    selected ← offered request.tool_choice request.tools
    json ← ok_or (lib.tools_to_string selected.0) (invalid_field tools_field unprintable_tools)
    ok (
        some (record {
          config = config;
          tools = selected.0;
          tool_schemas_json = json;
          require_tool_call = selected.1;
          prompt_format = for_model request.model;
        }))

  abbrev pub is_off : ToolsConfig → ChatToolChoice → Bool
  is_off config no_tool = true
  is_off config _ = elim config.mode [ emulated ↦ not config.enabled | no_tools ↦ true ]

  abbrev pub has_no_tool : List ChatToolDefinition → Bool
  has_no_tool [] = true
  has_no_tool (tool ∷ tools) = false

  unfoldable pub from_request :
      ToolsConfig → ChatCompletionRequest → Result ChatRequestError (Option Emulation)
  from_request config request =
      if is_off config request.tool_choice
      then ok none
      else if has_no_tool request.tools
      then without_tools request.tool_choice
      else with_tools config request

  abbrev pub Failure : Type 0
  Failure = ToolError lib.ParserError

  unfoldable pub check_arguments :
      ToolsConfig → ChatToolDefinition → Value → Result Failure (Unit {0})
  check_arguments config tool arguments = elim tool.parameters [
    | none ↦ ok tt
    | some schema ↦
        if config.validate_json_schema
        then map_err schema_problem (validate_arguments arguments schema)
        else ok tt
  ]

  unfoldable pub validate_tool_call :
      Emulation → ℕ → ToolCallDelta → Result Failure ValidatedToolCall
  validate_tool_call emulation place call = do
    let name = unwrap_or call.name []
    ensure (not (is_empty (trim name))) blank_name
    tool ← ok_or (find_tool name emulation.tools) (unknown_name name)
    arguments ← ok_or (lib.from_str call.arguments) bad_arguments
    ensure (is_some (as_object arguments)) arguments_not_object
    check_arguments emulation.config tool arguments
    arguments_json ← ok_or (lib.to_string arguments) unprintable
    ok (record {
      id = lib.generate_tool_call_id place;
      name = name;
      arguments_json = arguments_json;
    })

  unfoldable pub validate_calls :
      Emulation → ℕ → List ToolCallDelta → Result Failure (List ValidatedToolCall)
  validate_calls emulation place [] = ok []
  validate_calls emulation place (call ∷ calls) = do
    one ← validate_tool_call emulation place call
    rest ← validate_calls emulation (suc place) calls
    ok (one ∷ rest)

  unfoldable pub parse_tool_calls_with_format :
      Emulation → ToolPromptFormat → Text → Result Failure (List ValidatedToolCall)
  parse_tool_calls_with_format emulation format output = do
    parser ← map_err not_created (lib.create_parser format emulation.tools)
    calls ← map_err not_parsed (lib.parse_complete parser output)
    validate_calls emulation 0 calls

  abbrev pub some_calls : Result Failure (List ValidatedToolCall) → Option (List ValidatedToolCall)
  some_calls (ok (call ∷ calls)) = some (call ∷ calls)
  some_calls (ok []) = none
  some_calls (err why) = none

  unfoldable pub hermes_fallback_tool_calls : Emulation → Text → Option (List ValidatedToolCall)
  hermes_fallback_tool_calls emulation output =
      some_calls (parse_tool_calls_with_format emulation hermes_json output)

  -- The result of the native format, or the calls of the Hermes format instead.
  unfoldable pub or_fallback :
      Bool
      → Option (List ValidatedToolCall)
      → Result Failure (List ValidatedToolCall)
      → Result Failure (List ValidatedToolCall)
  or_fallback has_start none result = result
  or_fallback has_start (some calls) (err why) = ok calls
  or_fallback has_start (some calls) (ok []) = if has_start then ok calls else ok []
  or_fallback has_start (some calls) (ok (call ∷ rest)) = ok (call ∷ rest)

  unfoldable pub parse_tool_calls : Emulation → Text → Result Failure (List ValidatedToolCall)
  parse_tool_calls emulation output =
      let result = parse_tool_calls_with_format emulation emulation.prompt_format output in
      elim emulation.prompt_format [
        | hermes_json ↦ result
        | _ ↦
            or_fallback (has_text output tool_call_start)
              (hermes_fallback_tool_calls emulation output) result
      ]

  -- The context that the handlers of a response use.
  unfoldable pub context : Emulation → ToolEmulationContext Failure
  context emulation = record {
    tool_call_max_bytes = emulation.config.tool_call_max_bytes;
    max_retries = emulation.config.max_retries;
    require_tool_call = emulation.require_tool_call;
    parse_tool_calls = parse_tool_calls emulation;
  }
