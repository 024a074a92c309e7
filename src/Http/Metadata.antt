-- ===== src/Http/Metadata.antt =====
-- src/http.rs and src/config.rs: the metadata of an accepted chat.
use venice_e2ee_proxy.Base.{ℕ, Bool, true, Option, none, some, unwrap_or, if◌then◌else◌}
use venice_e2ee_proxy.Text.{Text, text}
use venice_e2ee_proxy.E2ee.{E2eeConfig}
use venice_e2ee_proxy.Sessions.{SessionContext, SessionScope}
use venice_e2ee_proxy.Attestation.{AttestationConfig, AttestationMode, independent}
use venice_e2ee_proxy.Tools.Emulation.{ToolMode, ToolsConfig, emulated, no_tools}

-- The sections of the configuration that a request reads; that of the sessions is the manager's.
pub record ProxyConfig : Type 0 where
  pub e2ee : E2eeConfig
  pub attestation : AttestationConfig
  pub tools : ToolsConfig

-- The default has no value in any field.
pub record ProxyMetadataHeaders : Type 0 where
  pub e2ee : Option Text
  pub attestation_mode : Option Text
  pub attested_model : Option Text
  pub tee_provider : Option Text
  pub tdx_verified : Option Bool
  pub tdx_debug : Option Bool
  pub nvidia_verified : Option Text
  pub key_binding : Option Bool
  pub session_id : Option Text
  pub session_scope : Option Text
  pub tool_mode : Option Text
  pub tool_retries : Option ℕ

abbrev mode_text : AttestationMode → Text
mode_text independent = text "independent"

abbrev tool_mode_text : ToolMode → Text
tool_mode_text emulated = text "emulated"
tool_mode_text no_tools = text "none"

abbrev scope_text : SessionScope → Text
scope_text SessionScope.agent = text "agent"
scope_text SessionScope.request = text "request"

unfoldable pub for_verified_chat : ProxyConfig → SessionContext → ProxyMetadataHeaders
for_verified_chat config session = record {
  e2ee = some (text "verified");
  attestation_mode = some (mode_text config.attestation.mode);
  attested_model = some session.model_id;
  tee_provider = some (unwrap_or session.attestation_tee_provider (text "unknown"));
  tdx_verified = if config.attestation.require_tdx then some true else none;
  tdx_debug = session.attestation_tdx_debug;
  nvidia_verified = some (unwrap_or session.attestation_nvidia_verified (text "not-present"));
  key_binding = some true;
  session_id = some session.agent_session_id;
  session_scope = some (scope_text session.scope);
  tool_mode = some (tool_mode_text config.tools.mode);
  tool_retries = none;
}
