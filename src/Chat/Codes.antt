-- ===== src/Chat/Codes.antt =====
-- src/openai/chat.rs: the codes of a request's errors.
use venice_e2ee_proxy.Text.{Text, text}
use venice_e2ee_proxy.Chat.{
  ChatRequestError, missing_field, invalid_request, invalid_field, unsupported_field,
  unsupported_message_role, unsupported_message_content, invalid_tool_call_history,
  unsupported_venice_parameter,
}
use venice_e2ee_proxy.Chat.Upstream.{ChatConstructionError, e2ee}

unfoldable pub request_error_code : ChatRequestError → Text
request_error_code (missing_field f) = text "invalid_request"
request_error_code invalid_request = text "invalid_request"
request_error_code (invalid_field f why) = text "invalid_request"
request_error_code (unsupported_field f) = text "unsupported_request_field"
request_error_code (unsupported_message_role r) = text "unsupported_message_role"
request_error_code (unsupported_message_content i p why) = text "unsupported_message_content"
request_error_code (invalid_tool_call_history why) = text "invalid_tool_call_history"
request_error_code (unsupported_venice_parameter f why) = text "unsupported_venice_parameter"

unfoldable pub construction_error_code : {HexError : Type 0} → ChatConstructionError HexError → Text
construction_error_code (e2ee why) = text "e2ee_request_encryption_failed"
