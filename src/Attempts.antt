-- ===== src/Attempts.antt =====
-- src/http.rs: `openai_tool_emulated_chat_response` for a buffered client, and
-- `tool_stream_event_outputs` for a streaming one: the retries of a tool-emulated request with the
-- correction of the output that failed. What an attempt yields is an argument.
pub mod Budget
pub mod Completion
mod Tests
use venice_e2ee_proxy.Base.{
  ℕ, suc, zero, ◌+◌, Bool, true, false, Option, none, some, Result, ok, err, List, [], ◌∷◌, ◌++◌,
  leb, ltb, if◌then◌else◌, and_then, unwrap_or,
}
use venice_e2ee_proxy.Text.{Text, text, text_eq}
use venice_e2ee_proxy.Json.{Value, Number}
use venice_e2ee_proxy.Tools.{
  ToolEmulationContext, ToolCallValidationError, ToolOutputClassification, ValidatedToolCall,
  normal_text, tool_calls, invalid_tool_call, classify_assistant_output,
}
use venice_e2ee_proxy.Stream.{
  StreamLib, StreamError, StreamOutput, ChatStreamError, ToolCallProblem, upstream_stream,
  upstream_event, malformed_event, decryption, RawSseEvent,
}
use venice_e2ee_proxy.Stream
use venice_e2ee_proxy.Stream.Tool.{Transformer}
use venice_e2ee_proxy.Stream.Tool.Handler.{handle_event}
use venice_e2ee_proxy.Attempts.Completion.{assistant_content, openai_tool_call_completion}

-- The correction prompt's parts: why the output was refused, and the output.
pub record Correction (Why : Type 0) : Type 0 where
  pub validation_error : Why
  pub invalid_output : Text

-- How one attempt ends: with an error of the request or of its stream, without an answer within
-- `tool_call_marker_timeout`, or with a completion.
pub data Attempt (Failure : Type 0) : Type 0 where
  failed : Failure → Attempt Failure
  timed_out : Attempt Failure
  completed : Value → Attempt Failure

-- What is said of an attempt that may be made again.
pub data ValidationError (ToolError : Type 0) : Type 0 where
  not_finished_in_time : ValidationError ToolError
  tool_call : ToolCallValidationError ToolError → ValidationError ToolError

pub data ResponseError (Failure ToolError : Type 0) : Type 0 where
  attempt_failed : Failure → ResponseError Failure ToolError
  tool_call_retry_exhausted : ℕ → ValidationError ToolError → ResponseError Failure ToolError

-- The response: its body, and the `tool_retries` of its metadata headers.
pub record Response : Type 0 where
  pub body : Value
  pub tool_retries : Option ℕ

unfoldable pub response : ℕ → Value → Response
response retries body = record {
  body = body;
  tool_retries = if ltb 0 retries then some retries else none;
}

-- What follows an attempt.
pub data Verdict (Failure ToolError : Type 0) : Type 0 where
  final : Result (ResponseError Failure ToolError) Response → Verdict Failure ToolError
  retry : Correction (ValidationError ToolError) → Verdict Failure ToolError

module _ {Failure ToolError : Type 0} (now : Number) (tools : ToolEmulationContext ToolError) where
  unfoldable pub retry_or_give_up : ℕ → ValidationError ToolError → Text → Verdict Failure ToolError
  retry_or_give_up retries why output =
      if leb tools.max_retries retries
      then final (err (tool_call_retry_exhausted tools.max_retries why))
      else retry (record { validation_error = why; invalid_output = output })

  unfoldable pub classified :
      ℕ → Value → ToolOutputClassification ToolError → Verdict Failure ToolError
  classified retries completion normal_text = final (ok (response retries completion))
  classified retries completion (tool_calls calls) =
      final (ok (response retries (openai_tool_call_completion now completion calls)))
  classified retries completion (invalid_tool_call why output) =
      retry_or_give_up retries (tool_call why) output

  -- The loop's body once the attempt is over.
  unfoldable pub verdict : ℕ → Attempt Failure → Verdict Failure ToolError
  verdict retries (failed why) = final (err (attempt_failed why))
  verdict retries timed_out = retry_or_give_up retries not_finished_in_time []
  verdict retries (completed completion) =
      classified retries completion (classify_assistant_output tools (assistant_content completion))

  -- The loop, with fuel for its rounds: `attempt n c` is what the attempt after `n` retries yields
  -- with the correction `c`.
  unfoldable pub respond :
      (ℕ → Option (Correction (ValidationError ToolError)) → Attempt Failure)
      → ℕ
      → ℕ
      → Option (Correction (ValidationError ToolError))
      → Option (Result (ResponseError Failure ToolError) Response)
  respond attempt zero retries correction = none
  respond attempt (suc fuel) retries correction =
      elim (verdict retries (attempt retries correction)) [
        | final result ↦ some result
        | retry next ↦ respond attempt fuel (retries + 1) (some next)
      ]

-- `ToolStreamEventOutputs`, or the error that ends the stream.
pub data EventOutcome (lib : StreamLib) : Type 0 where
  outputs : Transformer → List StreamOutput → EventOutcome lib
  retry_stream : Correction (ToolCallProblem lib.ToolError) → EventOutcome lib
  stream_exhausted : ℕ → ToolCallProblem lib.ToolError → EventOutcome lib
  stream_failed : StreamError lib → EventOutcome lib

module _ (lib : StreamLib) (tools : ToolEmulationContext lib.ToolError) where
  unfoldable pub stream_error_outcome : ℕ → StreamError lib → EventOutcome lib
  stream_error_outcome retries (Stream.invalid_tool_call why output) =
      if ltb retries tools.max_retries
      then retry_stream (record { validation_error = why; invalid_output = output })
      else stream_exhausted tools.max_retries why
  stream_error_outcome retries (upstream_stream m) = stream_failed (upstream_stream m)
  stream_error_outcome retries (upstream_event m) = stream_failed (upstream_event m)
  stream_error_outcome retries (malformed_event m) = stream_failed (malformed_event m)
  stream_error_outcome retries (decryption e) = stream_failed (decryption e)

  unfoldable pub tool_stream_event_outputs : ℕ → Transformer → RawSseEvent → EventOutcome lib
  tool_stream_event_outputs retries t event = elim (handle_event lib tools t event) [
    | ok (t', more) ↦ outputs t' more
    | err e ↦ stream_error_outcome retries e
  ]
