-- ===== src/Stream/Codes.antt =====
-- src/http.rs: the type and the code of a stream's error.
use venice_e2ee_proxy.Text.{Text, text}
use venice_e2ee_proxy.Stream.{
  ChatStreamError, upstream_stream, upstream_event, malformed_event, invalid_tool_call, decryption,
}

module _ {CodecError ToolError : Type 0} where
  unfoldable pub stream_error_type : ChatStreamError CodecError ToolError → Text
  stream_error_type (upstream_stream m) = text "proxy_upstream_error"
  stream_error_type (upstream_event m) = text "proxy_upstream_error"
  stream_error_type (malformed_event m) = text "proxy_upstream_error"
  stream_error_type (invalid_tool_call p s) = text "proxy_upstream_error"
  stream_error_type (decryption why) = text "proxy_e2ee_error"

  unfoldable pub stream_error_code : ChatStreamError CodecError ToolError → Text
  stream_error_code (upstream_stream m) = text "upstream_stream_error"
  stream_error_code (upstream_event m) = text "upstream_stream_error"
  stream_error_code (malformed_event m) = text "upstream_malformed_response"
  stream_error_code (invalid_tool_call p s) = text "tool_call_validation_failed"
  stream_error_code (decryption why) = text "e2ee_response_decryption_failed"
