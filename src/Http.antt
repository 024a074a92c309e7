-- ===== src/Http.antt =====
-- src/http.rs: the errors of the handlers with their status, type and code. The types of the errors
-- that come from the libraries are parameters.
pub mod Metadata
pub mod Requests
pub mod Attested
pub mod Sent
pub mod Errors
mod Tests
use venice_e2ee_proxy.Base.{ℕ, Bool, true, false, if◌then◌else◌}
use venice_e2ee_proxy.Text.{Text, text}
use venice_e2ee_proxy.Sessions.{
  SessionError, invalid_model_id, missing_session_identifier, invalid_header_name,
  invalid_header_value, session_not_found, session_expired,
}
use venice_e2ee_proxy.Attestation.{
  AttestationError, api_error_type, api_error_code, external_verifier_unavailable,
}
use venice_e2ee_proxy.Venice.{VeniceClientError, client_error_type, client_error_code}
use venice_e2ee_proxy.Chat.{ChatRequestError}
use venice_e2ee_proxy.Chat.Upstream.{ChatConstructionError}
use venice_e2ee_proxy.Chat.Codes.{request_error_code, construction_error_code}
use venice_e2ee_proxy.Stream.{ChatStreamError}
use venice_e2ee_proxy.Stream.Codes.{stream_error_type, stream_error_code}

-- A method and a URI are the texts that they print as.
pub data ProxyError (FetchError SerdeError HexError CodecError ToolError : Type 0) : Type 0 where
  venice : VeniceClientError → ProxyError FetchError SerdeError HexError CodecError ToolError
  attestation :
      AttestationError FetchError SerdeError
      → ProxyError FetchError SerdeError HexError CodecError ToolError
  session_error : SessionError → ProxyError FetchError SerdeError HexError CodecError ToolError
  chat_request : ChatRequestError → ProxyError FetchError SerdeError HexError CodecError ToolError
  chat_construction :
      ChatConstructionError HexError
      → ProxyError FetchError SerdeError HexError CodecError ToolError
  chat_stream :
      ChatStreamError CodecError ToolError
      → ProxyError FetchError SerdeError HexError CodecError ToolError
  tool_call_retry_exhausted :
      ℕ → Text → ProxyError FetchError SerdeError HexError CodecError ToolError
  proxy_instance_key_unavailable missing_attested_model_key :
      ProxyError FetchError SerdeError HexError CodecError ToolError
  method_not_allowed : Text → Text → ProxyError FetchError SerdeError HexError CodecError ToolError
  not_found : Text → ProxyError FetchError SerdeError HexError CodecError ToolError

-- The errors that are the request's own: no identifier, or a header that is no text.
unfoldable pub is_identifier_error : SessionError → Bool
is_identifier_error missing_session_identifier = true
is_identifier_error (invalid_header_value h) = true
is_identifier_error invalid_model_id = false
is_identifier_error (invalid_header_name h) = false
is_identifier_error (session_not_found k) = false
is_identifier_error (session_expired why) = false

unfoldable pub session_error_code : SessionError → Text
session_error_code missing_session_identifier = text "session_identifier_missing"
session_error_code (invalid_header_value h) = text "invalid_session_header"
session_error_code invalid_model_id = text "session_error"
session_error_code (invalid_header_name h) = text "session_error"
session_error_code (session_not_found k) = text "session_error"
session_error_code (session_expired why) = text "session_error"

module _ {FetchError SerdeError : Type 0} where
  unfoldable pub verifier_unavailable : AttestationError FetchError SerdeError → Bool
  verifier_unavailable (external_verifier_unavailable v) = true
  verifier_unavailable _ = false

module _ {FetchError SerdeError HexError CodecError ToolError : Type 0} where
  unfoldable pub status : ProxyError FetchError SerdeError HexError CodecError ToolError → ℕ
  status (venice why) = 502
  status (attestation why) = if verifier_unavailable why then 503 else 502
  status (session_error why) = if is_identifier_error why then 400 else 500
  status (chat_request why) = 400
  status (chat_construction why) = 502
  status (chat_stream why) = 502
  status (tool_call_retry_exhausted n why) = 502
  status proxy_instance_key_unavailable = 500
  status missing_attested_model_key = 500
  status (method_not_allowed method uri) = 405
  status (not_found uri) = 404

  unfoldable pub error_type : ProxyError FetchError SerdeError HexError CodecError ToolError → Text
  error_type (venice why) = client_error_type why
  error_type (attestation why) = api_error_type why
  error_type (session_error why) =
      if is_identifier_error why then text "invalid_request_error" else text "proxy_session_error"
  error_type (chat_request why) = text "invalid_request_error"
  error_type (chat_construction why) = text "proxy_e2ee_error"
  error_type (chat_stream why) = stream_error_type why
  error_type (tool_call_retry_exhausted n why) = text "proxy_tool_call_error"
  error_type proxy_instance_key_unavailable = text "proxy_configuration_error"
  error_type missing_attested_model_key = text "proxy_attestation_error"
  error_type (method_not_allowed method uri) = text "invalid_request_error"
  error_type (not_found uri) = text "invalid_request_error"

  unfoldable pub code : ProxyError FetchError SerdeError HexError CodecError ToolError → Text
  code (venice why) = client_error_code why
  code (attestation why) = api_error_code why
  code (session_error why) = session_error_code why
  code (chat_request why) = request_error_code why
  code (chat_construction why) = construction_error_code why
  code (chat_stream why) = stream_error_code why
  code (tool_call_retry_exhausted n why) = text "invalid_tool_call"
  code proxy_instance_key_unavailable = text "proxy_instance_key_unavailable"
  code missing_attested_model_key = text "attestation_failed"
  code (method_not_allowed method uri) = text "method_not_allowed"
  code (not_found uri) = text "not_found"
