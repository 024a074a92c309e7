-- ===== src/Chat/Valid.antt =====
-- What holds of every request that the proxy accepts.
use venice_e2ee_proxy.Base.{
  ◌≡◌, subst, false, ok, ok_or, All, length, ok_of_bind, ok_of_then, ok-injective, ◌≤◌,
}
use venice_e2ee_proxy.Text.{text}
use venice_e2ee_proxy.Json.{Value, Fields, get_field, as_object}
use venice_e2ee_proxy.Chat.{ChatCompletionRequest, Serde}
use venice_e2ee_proxy.Chat.Reading.{
  is_blank, reject_unknown_fields, validate_ignored_client_only_fields, required_non_empty_string,
  optional_bool, optional_non_empty_string, passthrough_fields,
}
use venice_e2ee_proxy.Chat.Messages.{normalize_messages}
use venice_e2ee_proxy.Chat.Parse.{
  parse, parse_fields, allowed_fields, parse_stream_options, parse_venice_parameters,
  parse_reasoning, parse_tools, parse_tool_choice, validate_tools, validate_tool_choice,
  any_blank_name, validate_reasoning_effort_consistency, nested_effort,
}
use venice_e2ee_proxy.Chat.Checks.{
  HasUpstreamRole, IsPrivate, IsNamed, Agree, required_non_empty_string-ok,
  parse_venice_parameters-IsPrivate, validate_tools-ok, validate_tool_choice-ok, same_effort-ok,
}
use venice_e2ee_proxy.Chat.Roles.{normalize_messages-ok}

-- A model and one message at least, in roles that Venice knows; private parameters; named tools;
-- and one reasoning effort.
unfoldable pub IsValid : ChatCompletionRequest → Type 0
IsValid request =
    (is_blank request.model ≡ false)
    × All HasUpstreamRole request.messages
    × (1 ≤ length request.messages)
    × IsPrivate request.venice_parameters
    × (any_blank_name request.tools ≡ false)
    × IsNamed request.tool_choice
    × Agree (nested_effort request.reasoning) request.reasoning_effort

module _ (serde : Serde) where
  parse_fields-IsValid :
      (m : Fields) (request : ChatCompletionRequest)
      → parse_fields serde m ≡ ok request
      → IsValid request
  unfolding parse_fields IsValid validate_reasoning_effort_consistency
  parse_fields-IsValid m request h =
      let (metadata, h1) = ok_of_then (validate_ignored_client_only_fields m) _ h in
      let (model, e2, h2) = ok_of_bind (required_non_empty_string m (text "model")) _ h1 in
      let (value, e3, h3) = ok_of_bind (ok_or (get_field (text "messages") m) _) _ h2 in
      let (messages, e4, h4) = ok_of_bind (normalize_messages serde value) _ h3 in
      let (stream, e5, h5) = ok_of_bind (optional_bool m (text "stream")) _ h4 in
      let (options, e6, h6) = ok_of_bind (parse_stream_options serde _) _ h5 in
      let (parameters, e7, h7) =
        ok_of_bind (parse_venice_parameters serde (get_field (text "venice_parameters") m)) _ h6 in
      let (passthrough, e8, h8) = ok_of_bind (passthrough_fields serde m) _ h7 in
      let (reasoning, e9, h9) = ok_of_bind (parse_reasoning serde _) _ h8 in
      let (effort, e10, h10) =
        ok_of_bind (optional_non_empty_string m (text "reasoning_effort")) _ h9 in
      let (agree, h11) =
        ok_of_then (validate_reasoning_effort_consistency reasoning effort) _ h10 in
      let (tools, e12, h12) = ok_of_bind (parse_tools serde _) _ h11 in
      let (named, h13) = ok_of_then (validate_tools tools) _ h12 in
      let (tool_choice, e14, h14) = ok_of_bind (parse_tool_choice serde _) _ h13 in
      let (chosen, h15) = ok_of_then (validate_tool_choice tool_choice) _ h14 in
      let (parallel, e16, h16) = ok_of_bind (optional_bool m (text "parallel_tool_calls")) _ h15 in
      let (roles, some_message, array) = normalize_messages-ok serde value messages e4 in
      subst IsValid (ok-injective h16) (
        required_non_empty_string-ok m (text "model") model e2,
        roles,
        some_message,
        parse_venice_parameters-IsPrivate serde _ parameters e7,
        validate_tools-ok tools named,
        validate_tool_choice-ok tool_choice chosen,
        same_effort-ok (nested_effort reasoning) effort agree,
      )

  -- Every request that is accepted has a model and a message, roles that Venice knows, encryption on
  -- with no system prompt and no web search, named tools, and one reasoning effort.
  pub parse-IsValid :
      (value : Value) (request : ChatCompletionRequest)
      → parse serde value ≡ ok request
      → IsValid request
  unfolding parse
  parse-IsValid value request h =
      let (m, e, h1) = ok_of_bind (ok_or (as_object value) _) _ h in
      let (known, h2) = ok_of_then (reject_unknown_fields m allowed_fields) _ h1 in
      parse_fields-IsValid m request h2
