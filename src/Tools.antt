-- ===== src/Tools.antt =====
-- src/tools.rs: the classification of a decrypted assistant response under tool emulation.
pub mod Schema
pub mod Validate
pub mod Required
pub mod Satisfied
pub mod Emulation
pub mod Offered
pub mod Calls
pub mod Tests
use venice_e2ee_proxy.Base.{ℕ, Bool, List, [], ◌∷◌, Result, ok, err, if◌then◌else◌, ltb}
use venice_e2ee_proxy.Text.{Text, text}
use venice_e2ee_proxy.Json.{Value, string, object, from_entries}
use venice_e2ee_proxy.Text.Bytes.{byte_len}

pub record ValidatedToolCall : Type 0 where
  pub id : Text
  pub name : Text
  pub arguments_json : Text

unfoldable pub to_openai_value : ValidatedToolCall → List (Text × Value)
to_openai_value call =
    (text "id", string call.id)
    ∷ (text "type", string (text "function"))
    ∷ (
      text "function",
      object (
          from_entries (
            (text "name", string call.name) ∷ (text "arguments", string call.arguments_json) ∷ [])),
    )
    ∷ []

-- The validation errors of the classifier itself, and those of the parser.
pub data ToolCallValidationError (ParseError : Type 0) : Type 0 where
  output_too_large : ℕ → ToolCallValidationError ParseError
  expected_tool_call : ToolCallValidationError ParseError
  parse_error : ParseError → ToolCallValidationError ParseError

pub data ToolOutputClassification (ParseError : Type 0) : Type 0 where
  normal_text : ToolOutputClassification ParseError
  tool_calls : List ValidatedToolCall → ToolOutputClassification ParseError
  invalid_tool_call :
      ToolCallValidationError ParseError → Text → ToolOutputClassification ParseError

-- `ToolEmulationContext`, as far as its answers need it: the limit, whether a call is required,
-- and `parse_tool_calls`.
pub record ToolEmulationContext (ParseError : Type 0) : Type 0 where
  pub tool_call_max_bytes : ℕ
  pub max_retries : ℕ
  pub require_tool_call : Bool
  pub parse_tool_calls : Text → Result ParseError (List ValidatedToolCall)

module _ {ParseError : Type 0} where
  unfoldable pub classify_parsed :
      Bool → Text → Result ParseError (List ValidatedToolCall) → ToolOutputClassification ParseError
  classify_parsed require output (err e) = invalid_tool_call (parse_error e) output
  classify_parsed require output (ok []) =
      if require then invalid_tool_call expected_tool_call output else normal_text
  classify_parsed require output (ok (call ∷ calls)) = tool_calls (call ∷ calls)

  unfoldable pub classify_assistant_output :
      ToolEmulationContext ParseError → Text → ToolOutputClassification ParseError
  classify_assistant_output ctx output =
      if ltb ctx.tool_call_max_bytes (byte_len output)
      then invalid_tool_call (output_too_large ctx.tool_call_max_bytes) output
      else classify_parsed ctx.require_tool_call output (ctx.parse_tool_calls output)
