-- ===== src/Tools/Calls.antt =====
-- The tool calls that are accepted of an output.
use venice_e2ee_proxy.Base.{
  ℕ, suc, ◌≡◌, ap, subst, Bool, true, false, not, Option, none, some, is_some, Result, ok, err,
  map_err, ok_or, ok_or-ok, unwrap_or, List, [], ◌∷◌, All, ok_of_bind, ok_of_then, ok_of_ensure,
  ok-injective, arith,
}
use venice_e2ee_proxy.Text.{Text, is_empty}
use venice_e2ee_proxy.Text.Trim.{trim}
use venice_e2ee_proxy.Json.{Value, as_object}
use venice_e2ee_proxy.Chat.{ChatToolDefinition}
use venice_e2ee_proxy.Tools.{ValidatedToolCall}
use venice_e2ee_proxy.Tools.Emulation.{
  Emulation, ToolCallDelta, ToolLib, check_arguments, find_tool, glm_xml,
  hermes_fallback_tool_calls, hermes_json, or_fallback, parse_tool_calls,
  parse_tool_calls_with_format, qwen_xml, validate_calls, validate_tool_call, not_created,
  not_parsed, Failure, ToolPromptFormat, some_calls,
}
use venice_e2ee_proxy.Tools.Satisfied.{Validated, check_arguments-Validated}

module _ (lib : ToolLib) (emulation : Emulation) where
  -- The call names an offered tool, and its arguments print an object that satisfies the tool's
  -- schema, where schemas are validated.
  unfoldable pub IsOffered : ValidatedToolCall → Type 0
  IsOffered call =
      (tool : ChatToolDefinition) × (arguments : Value) × (find_tool call.name emulation.tools
        ≡ some tool)
      × (is_some (as_object arguments) ≡ true)
      × Validated tool.parameters emulation.config.validate_json_schema arguments
      × (lib.to_string arguments ≡ some call.arguments_json)

  validate_tool_call-IsOffered :
      (place : ℕ) (delta : ToolCallDelta) (call : ValidatedToolCall)
      → validate_tool_call lib emulation place delta ≡ ok call
      → IsOffered call
  unfolding validate_tool_call IsOffered
  validate_tool_call-IsOffered place delta call h =
      let (named, h1) = ok_of_ensure (not (is_empty (trim (unwrap_or delta.name [])))) _ _ h in
      let (tool, e2, h2) =
        ok_of_bind (ok_or (find_tool (unwrap_or delta.name []) emulation.tools) _) _ h1 in
      let (arguments, e3, h3) = ok_of_bind (ok_or (lib.from_str delta.arguments) _) _ h2 in
      let (object, h4) = ok_of_ensure (is_some (as_object arguments)) _ _ h3 in
      let (valid, h5) = ok_of_then (check_arguments lib emulation.config tool arguments) _ h4 in
      let (json, e6, h6) = ok_of_bind (ok_or (lib.to_string arguments) _) _ h5 in
      subst IsOffered (ok-injective h6) (
        tool,
        arguments,
        ok_or-ok _ _ e2,
        object,
        check_arguments-Validated lib emulation.config tool arguments valid,
        ok_or-ok (lib.to_string arguments) _ e6,
      )

  validate_calls-IsOffered :
      (place : ℕ) (deltas : List ToolCallDelta) (calls : List ValidatedToolCall)
      → validate_calls lib emulation place deltas ≡ ok calls
      → All IsOffered calls
  unfolding validate_calls
  validate_calls-IsOffered place [] calls h = subst (All IsOffered) (ok-injective h) tt
  validate_calls-IsOffered place (delta ∷ deltas) calls h =
      let (one, e, h1) = ok_of_bind (validate_tool_call lib emulation place delta) _ h in
      let (rest, e2, h2) = ok_of_bind (validate_calls lib emulation (suc place) deltas) _ h1 in
      subst (All IsOffered) (ok-injective h2) (
        validate_tool_call-IsOffered place delta one e,
        validate_calls-IsOffered (suc place) deltas rest e2,
      )

  in_format :
      (format : ToolPromptFormat) (output : Text) (calls : List ValidatedToolCall)
      → parse_tool_calls_with_format lib emulation format output ≡ ok calls
      → All IsOffered calls
  unfolding parse_tool_calls_with_format
  in_format format output calls h =
      let (parser, e, h1) =
        ok_of_bind (map_err not_created (lib.create_parser format emulation.tools)) _ h in
      let (deltas, e2, h2) =
        ok_of_bind (map_err not_parsed (lib.parse_complete parser output)) _ h1 in
      validate_calls-IsOffered 0 deltas calls h2

  some_of :
      (r : Result (Failure lib) (List ValidatedToolCall)) (calls : List ValidatedToolCall)
      → some_calls lib r ≡ some calls
      → r ≡ ok calls
  some_of (ok (call ∷ rest)) calls h = ground (arith, h)
  some_of (ok []) calls h = cc
  some_of (err why) calls h = cc

  fallback-IsOffered :
      (output : Text) (calls : List ValidatedToolCall)
      → hermes_fallback_tool_calls lib emulation output ≡ some calls
      → All IsOffered calls
  unfolding hermes_fallback_tool_calls
  fallback-IsOffered output calls h = in_format hermes_json output calls (some_of _ calls h)

  -- Either result of the choice between the native format and the fallback.
  either :
      (start : Bool) (fallback : Option (List ValidatedToolCall))
      (result : Result (Failure lib) (List ValidatedToolCall)) (calls : List ValidatedToolCall)
      → ((c : List ValidatedToolCall) → fallback ≡ some c → All IsOffered c)
      → ((c : List ValidatedToolCall) → result ≡ ok c → All IsOffered c)
      → or_fallback lib start fallback result ≡ ok calls
      → All IsOffered calls
  unfolding or_fallback
  either start none result calls f g h = g calls h
  either start (some c) (err why) calls f g h = f calls (ap some (ok-injective h))
  either true (some c) (ok []) calls f g h = f calls (ap some (ok-injective h))
  either false (some c) (ok []) calls f g h = g calls h
  either start (some c) (ok (call ∷ rest)) calls f g h = g calls h

  by_format :
      (format : ToolPromptFormat) (start : Bool) (fallback : Option (List ValidatedToolCall))
      (result : Result (Failure lib) (List ValidatedToolCall)) (calls : List ValidatedToolCall)
      → ((c : List ValidatedToolCall) → fallback ≡ some c → All IsOffered c)
      → ((c : List ValidatedToolCall) → result ≡ ok c → All IsOffered c)
      → elim format [ hermes_json ↦ result | _ ↦ or_fallback lib start fallback result ] ≡ ok calls
      → All IsOffered calls
  by_format hermes_json start fallback result calls f g h = g calls h
  by_format glm_xml start fallback result calls f g h = either start fallback result calls f g h
  by_format qwen_xml start fallback result calls f g h = either start fallback result calls f g h

  -- Every call that is accepted of an output, by the model's own format or the fallback, names an
  -- offered tool, with arguments that are an object; and where the tool has a schema and schemas are
  -- validated, the validation against it succeeds: the arguments are of its type and in its enum, and
  -- for an object's schema have the required properties and each property accepted against its own
  -- schema.
  pub parse_tool_calls-IsOffered :
      (output : Text) (calls : List ValidatedToolCall)
      → parse_tool_calls lib emulation output ≡ ok calls
      → All IsOffered calls
  unfolding parse_tool_calls
  parse_tool_calls-IsOffered output calls h =
      by_format emulation.prompt_format _ (hermes_fallback_tool_calls lib emulation output)
        (parse_tool_calls_with_format lib emulation emulation.prompt_format output) calls
        (fallback-IsOffered output) (in_format emulation.prompt_format output) h
