-- ===== src/Sessions/Identifier.antt =====
-- src/sessions.rs: which session a request names. `HeaderMap` and `HeaderName` are the http
-- crate's, so they are a parameter; `Uuid::new_v4` is the argument `uuid`.
use venice_e2ee_proxy.Base.{
  Option, none, some, Result, ok, err, ◌>>=◌, ok_or, and_then, if◌then◌else◌,
}
use venice_e2ee_proxy.Text.{Text, text, is_empty}
use venice_e2ee_proxy.Text.Trim.{trim}
use venice_e2ee_proxy.Json
use venice_e2ee_proxy.Json.{Value, as_str}
use venice_e2ee_proxy.Sessions.{
  SessionFallbackScope, SessionScope, SessionError, invalid_header_name, invalid_header_value,
  missing_session_identifier, SessionManager,
}

-- `HeaderName::from_bytes`, `HeaderMap::get` and `HeaderValue::to_str`, each with its failure.
pub record HeaderLib : Type 1 where
  pub HeaderName : Type 0
  pub HeaderValue : Type 0
  pub HeaderMap : Type 0
  pub from_bytes : Text → Option HeaderName
  pub get_header : HeaderMap → HeaderName → Option HeaderValue
  pub to_str : HeaderValue → Option Text

pub record ResolvedSessionIdentifier : Type 0 where
  pub agent_session_id : Text
  pub scope : SessionScope

unfoldable pub non_empty_string : Text → Option Text
unfolding trim
non_empty_string value = let trimmed = trim value in if is_empty trimmed then none else some trimmed

unfoldable pub metadata_identifier : Option Value → Text → Option Text
unfolding non_empty_string
metadata_identifier body key =
    and_then
      (and_then (and_then (and_then body (Json.get (text "metadata"))) (Json.get key)) as_str)
      non_empty_string

-- What the configured fallback gives a request that names no session.
unfoldable pub fallback_identifier :
    SessionFallbackScope → Text → Text → Result SessionError ResolvedSessionIdentifier
fallback_identifier SessionFallbackScope.agent shared uuid =
    ok (record { agent_session_id = shared; scope = SessionScope.agent })
fallback_identifier SessionFallbackScope.request shared uuid =
    ok (record { agent_session_id = uuid; scope = SessionScope.request })
fallback_identifier SessionFallbackScope.disabled shared uuid = err missing_session_identifier

module _ (http : HeaderLib) where
  open http use {HeaderMap, from_bytes, get_header, to_str}

  pub record SessionRequest : Type 0 where
    pub model_id : Text
    pub headers : HeaderMap
    pub body : Option Value

  header_value : Text → Option http.HeaderValue → Result SessionError (Option Text)
  unfolding non_empty_string
  header_value configured_name none = ok none
  header_value configured_name (some raw) = do
    value ← ok_or (to_str raw) (invalid_header_value configured_name)
    ok (non_empty_string value)

  unfoldable pub header_identifier : HeaderMap → Text → Result SessionError (Option Text)
  unfolding header_value
  header_identifier headers configured_name = do
    name ← ok_or (from_bytes configured_name) (invalid_header_name configured_name)
    header_value configured_name (get_header headers name)

  unfoldable pub explicit_identifier :
      SessionManager → SessionRequest → Result SessionError (Option Text)
  explicit_identifier m request =
      header_identifier request.headers m.config.incoming_session_id >>= elim [
        | some value ↦ ok (some value)
        | none ↦ ok (metadata_identifier request.body (text "session_id"))
      ]

  unfoldable pub resolve_identifier :
      SessionManager → SessionRequest → Text → Result SessionError ResolvedSessionIdentifier
  resolve_identifier m request uuid = explicit_identifier m request >>= elim [
    | some value ↦ ok (record { agent_session_id = value; scope = SessionScope.agent })
    | none ↦ fallback_identifier m.config.fallback_scope m.agent_fallback_session_id uuid
  ]
