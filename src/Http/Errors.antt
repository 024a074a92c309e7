-- ===== src/Http/Errors.antt =====
-- Which errors the handlers lay to the request.
use venice_e2ee_proxy.Base.{◌<◌, ◌≡◌, refl, arith}
use venice_e2ee_proxy.Text.{text}
use venice_e2ee_proxy.Http.{ProxyError, status, error_type}

module _ {FetchError SerdeError HexError CodecError ToolError : Type 0} where
  -- An error whose status is below 500 has the type of an invalid request.
  pub status-error_type :
      (e : ProxyError FetchError SerdeError HexError CodecError ToolError)
      → status e < 500
      → error_type e ≡ text "invalid_request_error"
  unfolding status error_type
  status-error_type (ProxyError.venice why) h = absurd (omega arith)
  status-error_type (ProxyError.attestation why) h = absurd (ground arith)
  status-error_type (ProxyError.session_error why) h = ground arith
  status-error_type (ProxyError.chat_request why) h = refl
  status-error_type (ProxyError.chat_construction why) h = absurd (omega arith)
  status-error_type (ProxyError.chat_stream why) h = absurd (omega arith)
  status-error_type (ProxyError.tool_call_retry_exhausted n why) h = absurd (omega arith)
  status-error_type ProxyError.proxy_instance_key_unavailable h = absurd (omega arith)
  status-error_type ProxyError.missing_attested_model_key h = absurd (omega arith)
  status-error_type (ProxyError.method_not_allowed m uri) h = refl
  status-error_type (ProxyError.not_found uri) h = refl
