-- ===== src/Sessions/Manager.antt =====
-- src/sessions.rs: the methods of `SessionManager` that read or change the map of sessions. Each
-- returns the manager after it and the method's result.
use venice_e2ee_proxy.Base.{
  ℕ, ◌+◌, ◌-◌, true, false, none, some, Result, ok, err, and_then, is_some, is_none, length,
  if◌then◌else◌,
}
use venice_e2ee_proxy.Text.{Text, is_empty}
use venice_e2ee_proxy.Text.Trim.{trim}
use venice_e2ee_proxy.Dict.{get, insert, remove, retain}
use venice_e2ee_proxy.Sessions.{
  SessionContext, SessionResolution, AttestedModelState, SessionError, invalid_model_id,
  session_not_found, session_expired, SessionManager, session_key, expiration_reason, new_context,
}
use venice_e2ee_proxy.Sessions.Identifier.{
  HeaderLib, ResolvedSessionIdentifier, SessionRequest, resolve_identifier,
}

-- `existing.request_count += 1; existing.last_used_at = now`.
unfoldable pub touch : SessionContext → ℕ → SessionContext
touch session now = record session { request_count = session.request_count + 1; last_used_at = now }

-- The rest of `get_or_create_at` once the identifier is resolved: the part under the lock.
unfoldable pub enter :
    SessionManager → Text → ResolvedSessionIdentifier → ℕ → SessionManager × SessionResolution
enter m model_id resolved now =
    let key = session_key model_id resolved.agent_session_id in
    let replaced =
      and_then (get key m.sessions) (λ existing. expiration_reason m.config existing now) in
    let sessions = if is_some replaced then remove key m.sessions else m.sessions in
    let context = new_context model_id resolved.agent_session_id resolved.scope now m.config in
    elim (get key sessions) [
      | some existing ↦ (
        record m { sessions = insert key (touch existing now) sessions },
        record { session = touch existing now; created = false; replaced_expired = none },
      )
      | none ↦ (
        record m { sessions = insert key context sessions },
        record { session = context; created = true; replaced_expired = replaced },
      )
    ]

module _ (http : HeaderLib) where
  -- `get_or_create_at`; `uuid` is what `Uuid::new_v4` gives if it is called.
  unfoldable pub get_or_create_at :
      SessionManager
      → SessionRequest http
      → ℕ
      → Text
      → SessionManager × Result SessionError SessionResolution
  get_or_create_at m request now uuid =
      if is_empty (trim request.model_id)
      then (m, err invalid_model_id)
      else elim (resolve_identifier http m request uuid) [
        | err e ↦ (m, err e)
        | ok resolved ↦ let (m', r) = enter m request.model_id resolved now in (m', ok r)
      ]

-- What `set_attested_model_state_at` writes into the session.
unfoldable pub attested : SessionContext → AttestedModelState → SessionContext
attested session state = record session {
  attested_model_public_key = some state.model_public_key;
  attestation_tee_provider = state.tee_provider;
  attestation_tdx_debug = state.tdx_debug;
  attestation_nvidia_verified = some state.nvidia_verified;
  verified_at = some state.verified_at;
}

unfoldable pub set_attested_model_state_at :
    SessionManager
    → Text
    → AttestedModelState
    → ℕ
    → SessionManager × Result SessionError SessionContext
set_attested_model_state_at m key state now =
    elim (and_then (get key m.sessions) (λ session. expiration_reason m.config session now)) [
      | some reason ↦ (record m { sessions = remove key m.sessions }, err (session_expired reason))
      | none ↦ elim (get key m.sessions) [
        | none ↦ (m, err (session_not_found key))
        | some session ↦ (
          record m { sessions = insert key (attested session state) m.sessions },
          ok (attested session state),
        )
      ]
    ]

-- `cleanup_expired_at`.
unfoldable pub cleanup_expired_at : SessionManager → ℕ → SessionManager × ℕ
cleanup_expired_at m now =
    let kept = retain (λ _ session. is_none (expiration_reason m.config session now)) m.sessions in
    (record m { sessions = kept }, length m.sessions - length kept)
