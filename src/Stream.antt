-- ===== src/Stream.antt =====
-- src/http.rs: what the transformers of an upstream chat stream share: the event that the SSE
-- parser yields, the client-facing outputs and the errors.
pub mod Codes
pub mod Classify
pub mod Chunk
pub mod Completion
pub mod Plain
pub mod Sends
pub mod Roles
pub mod Tool
use venice_e2ee_proxy.Base.{ℕ, Option, none, some, Result, ok, map_err}
use venice_e2ee_proxy.Text.{Text}
use venice_e2ee_proxy.Json.{Value}
use venice_e2ee_proxy.Tools.{ToolCallValidationError}

pub record RawSseEvent : Type 0 where
  pub event : Option Text
  -- `data`.
  pub data_text : Text

pub data StreamOutput : Type 0 where
  json : Value → StreamOutput
  done : StreamOutput

-- The message of a malformed event: one constructor for each that the code writes, with what it
-- formats into it.
pub data Malformed : Type 0 where
  invalid_utf8 incomplete_event no_data_field invalid_json : Malformed
  unsupported_field : Text → Malformed
  missing_choices : Malformed
  choice_count : ℕ → Malformed
  no_usage choice_not_object choice_index_changed choice_index_not_integer : Malformed
  finish_reason_not_string : Malformed
  delta_field_not_string : Text → Malformed
  tool_output_too_large : ℕ → Malformed
  no_done : Malformed

-- The message of an upstream error: an error event's data, or the `error` entry of a chunk.
pub data UpstreamMessage : Type 0 where
  event_data : Text → UpstreamMessage
  error_entry : Value → UpstreamMessage

-- Why streamed tool-call output is refused: the classifier's error, a corrected response with no
-- tool call, or one that grew past the limit.
pub data ToolCallProblem (ToolError : Type 0) : Type 0 where
  parsing_failed : ToolCallValidationError ToolError → ToolCallProblem ToolError
  no_tool_call : ToolCallProblem ToolError
  text_too_large : ℕ → ToolCallProblem ToolError

-- `ChatStreamError`, over the errors of the codec and of the tool-call parser.
pub data ChatStreamError (CodecError ToolError : Type 0) : Type 0 where
  upstream_stream : Text → ChatStreamError CodecError ToolError
  upstream_event : UpstreamMessage → ChatStreamError CodecError ToolError
  malformed_event : Malformed → ChatStreamError CodecError ToolError
  invalid_tool_call : ToolCallProblem ToolError → Text → ChatStreamError CodecError ToolError
  decryption : CodecError → ChatStreamError CodecError ToolError

-- What the transformers call outside src/http.rs: serde_json's parser, and the decryption of one
-- field with the proxy instance's private key (`E2eeCodec::decrypt_response_content`).
pub record StreamLib : Type 1 where
  pub CodecError : Type 0
  pub ToolError : Type 0
  pub from_str : Text → Option Value
  pub decrypt_response_content : Option Text → Result CodecError (Option Text)

abbrev pub StreamError : StreamLib → Type 0
StreamError lib = ChatStreamError lib.CodecError lib.ToolError

-- `ChunkContext::decrypt`.
unfoldable pub decrypt : (lib : StreamLib) → Option Text → Result (StreamError lib) (Option Text)
decrypt lib content = map_err decryption (lib.decrypt_response_content content)

-- `if let Some(content) = content { decrypt(Some(content))? }`.
unfoldable pub decrypt_field :
    (lib : StreamLib) → Option Text → Result (StreamError lib) (Option Text)
decrypt_field lib none = ok none
decrypt_field lib (some content) = decrypt lib (some content)
