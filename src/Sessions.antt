-- ===== src/Sessions.antt =====
-- src/sessions.rs: sessions by `model_id:agent_session_id`, with their expiry and the attested
-- model key. A time is a number of nanoseconds. The manager's lock makes each method one step.
pub mod Identifier
pub mod Resolved
pub mod Manager
pub mod Spec
pub mod Invariant
pub mod Keys
pub mod Attest
pub mod Provenance
pub mod Tests
use venice_e2ee_proxy.Base.{
  ℕ, ◌+◌, ◌-◌, Bool, List, [], ◌++◌, Option, none, some, leb, if◌then◌else◌,
}
use venice_e2ee_proxy.Text.{Text, text}

-- src/config.rs: the session section.
pub data SessionFallbackScope : Type 0 where
  agent request disabled : SessionFallbackScope

pub record SessionConfig : Type 0 where
  pub idle_ttl : ℕ
  pub max_ttl : ℕ
  pub max_requests : ℕ
  pub fallback_scope : SessionFallbackScope
  pub incoming_session_id : Text

pub data SessionScope : Type 0 where
  agent request : SessionScope

pub data SessionExpirationReason : Type 0 where
  idle_ttl max_ttl max_requests : SessionExpirationReason

pub record SessionContext : Type 0 where
  pub session_key : Text
  pub model_id : Text
  pub agent_session_id : Text
  pub scope : SessionScope
  pub created_at : ℕ
  pub last_used_at : ℕ
  pub expires_at : ℕ
  pub request_count : ℕ
  pub attested_model_public_key : Option Text
  pub attestation_tee_provider : Option Text
  pub attestation_tdx_debug : Option Bool
  pub attestation_nvidia_verified : Option Text
  pub verified_at : Option ℕ

pub record SessionResolution : Type 0 where
  pub session : SessionContext
  pub created : Bool
  pub replaced_expired : Option SessionExpirationReason

pub record AttestedModelState : Type 0 where
  pub model_public_key : Text
  pub tee_provider : Option Text
  pub tdx_debug : Option Bool
  pub nvidia_verified : Text
  pub verified_at : ℕ

pub data SessionError : Type 0 where
  invalid_model_id missing_session_identifier : SessionError
  invalid_header_name invalid_header_value : Text → SessionError
  session_not_found : Text → SessionError
  session_expired : SessionExpirationReason → SessionError

pub record SessionManager : Type 0 where
  pub config : SessionConfig
  pub sessions : List (Text × SessionContext)
  pub agent_fallback_session_id : Text

-- `Uuid::new_v4` gives the fallback identifier.
unfoldable pub new_manager : SessionConfig → Text → SessionManager
new_manager config uuid = record {
  config = config;
  sessions = [];
  agent_fallback_session_id = uuid;
}

-- `fn session_key`.
unfoldable pub session_key : Text → Text → Text
session_key model_id agent_session_id = model_id ++ (text ":" ++ agent_session_id)

-- `elapsed_since`: zero if `now` is earlier, as `-` is on these numbers.
unfoldable pub elapsed_since : ℕ → ℕ → ℕ
elapsed_since start now = now - start

unfoldable pub expiration_reason :
    SessionConfig → SessionContext → ℕ → Option SessionExpirationReason
unfolding elapsed_since
expiration_reason config session now =
    if leb config.max_requests session.request_count
    then some SessionExpirationReason.max_requests
    else if leb session.expires_at now
    then some SessionExpirationReason.max_ttl
    else if leb config.idle_ttl (elapsed_since session.last_used_at now)
    then some SessionExpirationReason.idle_ttl
    else none

-- `SessionContext::new`.
unfoldable pub new_context : Text → Text → SessionScope → ℕ → SessionConfig → SessionContext
unfolding session_key
new_context model_id agent_session_id scope now config = record {
  session_key = session_key model_id agent_session_id;
  model_id = model_id;
  agent_session_id = agent_session_id;
  scope = scope;
  created_at = now;
  last_used_at = now;
  expires_at = now + config.max_ttl;
  request_count = 1;
  attested_model_public_key = none;
  attestation_tee_provider = none;
  attestation_tdx_debug = none;
  attestation_nvidia_verified = none;
  verified_at = none;
}
