-- ===== src/Http/Requests.antt =====
-- src/http.rs: create_chat_completion up to the request to Venice. The evidence that is fetched, the
-- clock and what other requests do to the sessions meanwhile are arguments.
use venice_e2ee_proxy.Base.{
  ℕ, Bool, Option, none, some, Result, ok, err, ◌>>=◌, ok_or, map_err, List,
}
use venice_e2ee_proxy.Text.{Text}
use venice_e2ee_proxy.Json.{Value}
use venice_e2ee_proxy.E2ee.{CryptoLib, E2eeCodec, from_config}
use venice_e2ee_proxy.E2ee.Keys.{ProxyInstanceKey}
use venice_e2ee_proxy.Sessions.{
  SessionManager, SessionContext, SessionError, SessionResolution, AttestedModelState,
}
use venice_e2ee_proxy.Sessions.Identifier.{HeaderLib}
use venice_e2ee_proxy.Sessions.Manager.{get_or_create_at, set_attested_model_state_at}
use venice_e2ee_proxy.Attestation.{VeniceAttestationResponse, VerifiedAttestation, as_header_value}
use venice_e2ee_proxy.Attestation.Keys.{AttestationLib, Failure}
use venice_e2ee_proxy.Attestation.Evidence.{verify_model_attestation}
use venice_e2ee_proxy.Chat.{ChatCompletionRequest, ChatRequestError, Serde}
use venice_e2ee_proxy.Chat.Parse.{parse}
use venice_e2ee_proxy.Chat.Upstream.{PreparedVeniceChatRequest, e2ee, to_venice_e2ee_request}
use venice_e2ee_proxy.Tools.Emulation.{Emulation, ToolLib, from_request}
use venice_e2ee_proxy.Http.{ProxyError}
use venice_e2ee_proxy.Http.Metadata.{ProxyConfig, ProxyMetadataHeaders, for_verified_chat}

-- `Option::or`.
abbrev either : Option Bool → Option Bool → Option Bool
either (some b) other = some b
either none other = other

unfoldable pub state_update : VerifiedAttestation → AttestedModelState
state_update a = record {
  model_public_key = a.model_public_key;
  tee_provider = a.tee_provider;
  tdx_debug = either a.tdx.debug a.debug;
  nvidia_verified = as_header_value a.nvidia.verified;
  verified_at = a.verified_at;
}

module _ (lib : CryptoLib) (digests : AttestationLib) (tool_lib : ToolLib) (CodecError : Type 0)
    (ToolError : Type 0) where
  abbrev pub Fault : Type 0
  Fault = ProxyError digests.FetchError digests.SerdeError lib.HexError CodecError ToolError

  -- What a request meets: the manager's fresh Uuid, the nonce, the evidence for a model, serde's
  -- reading of it, three readings of the clock, and the other requests' steps on the manager
  -- between the lookup of the session and the storing of its key.
  pub record Outside : Type 0 where
    pub uuid : Text
    pub nonce : Text
    pub fetch_attestation_evidence : Text → Text → Result digests.FetchError Value
    pub from_value : Value → Result digests.SerdeError VeniceAttestationResponse
    pub entered_at : ℕ
    pub verified_at : ℕ
    pub stored_at : ℕ
    pub others : SessionManager → SessionManager

  abbrev pub verified_by :
      ProxyConfig → Outside → Text → Result (Failure lib digests) VerifiedAttestation
  verified_by config world model_id =
      verify_model_attestation lib digests config.attestation model_id world.nonce
        (world.fetch_attestation_evidence model_id world.nonce) world.from_value world.verified_at

  -- The session with the key of an accepted attestation, stored.
  unfoldable pub store :
      SessionManager
      → SessionContext
      → Outside
      → Result (Failure lib digests) VerifiedAttestation
      → SessionManager × Result Fault SessionContext
  store m session world (err why) = (m, err (ProxyError.attestation why))
  store m session world (ok a) =
      let (m', r) =
        set_attested_model_state_at m session.session_key (state_update a) world.stored_at in
      (m', map_err (λ why. ProxyError.session_error why) r)

  -- By the key that the session has cached.
  unfoldable pub store_unless :
      Option Text
      → ProxyConfig
      → Outside
      → SessionManager
      → SessionContext
      → SessionManager × Result Fault SessionContext
  store_unless (some key) config world m session = (m, ok session)
  store_unless none config world m session =
      store (world.others m) session world (verified_by config world session.model_id)

  unfoldable pub ensure_attested_session :
      ProxyConfig
      → Outside
      → SessionManager
      → SessionContext
      → SessionManager × Result Fault SessionContext
  ensure_attested_session config world m session =
      store_unless session.attested_model_public_key config world m session

  -- A request that is accepted, before it is sent.
  pub record AcceptedRequest : Type 0 where
    pub request : ChatCompletionRequest
    pub proxy_instance_key : ProxyInstanceKey lib
    pub session : SessionContext
    pub model_public_key : Text
    pub codec : E2eeCodec
    pub tool_context : Option Emulation
    pub metadata : ProxyMetadataHeaders

  -- With the attested session.
  unfoldable pub accept :
      ProxyConfig
      → ChatCompletionRequest
      → ProxyInstanceKey lib
      → SessionContext
      → Result Fault AcceptedRequest
  accept config request instance_key session = do
    key ← ok_or session.attested_model_public_key ProxyError.missing_attested_model_key
    codec ← map_err (λ why. ProxyError.chat_construction (e2ee why)) (from_config lib config.e2ee)
    context ←
        map_err (λ why. ProxyError.chat_request why) (from_request tool_lib config.tools request)
    ok (record {
      request = request;
      proxy_instance_key = instance_key;
      session = session;
      model_public_key = key;
      codec = codec;
      tool_context = context;
      metadata = for_verified_chat config session;
    })

  -- With the manager's answer.
  unfoldable pub attest_resolved :
      ProxyConfig
      → Outside
      → SessionManager
      → Result SessionError SessionResolution
      → SessionManager × Result Fault SessionContext
  attest_resolved config world m (err why) = (m, err (ProxyError.session_error why))
  attest_resolved config world m (ok resolution) =
      ensure_attested_session config world m resolution.session

  -- The handler on a parsed request.
  unfoldable pub open_session :
      (http : HeaderLib)
      → ProxyConfig
      → Outside
      → SessionManager
      → ChatCompletionRequest
      → Value
      → http.HeaderMap
      → SessionManager × Result Fault SessionContext
  open_session http config world m request body headers =
      let (m', r) =
        get_or_create_at http m
          (record { model_id = request.model; headers = headers; body = some body })
          world.entered_at world.uuid in
      attest_resolved config world m' r

  -- With what parse yields and the instance's key.
  unfoldable pub with_request :
      (http : HeaderLib)
      → ProxyConfig
      → Outside
      → SessionManager
      → Value
      → http.HeaderMap
      → Result ChatRequestError ChatCompletionRequest
      → Option (ProxyInstanceKey lib)
      → SessionManager × Result Fault AcceptedRequest
  with_request http config world m body headers (err why) instance_key =
      (m, err (ProxyError.chat_request why))
  with_request http config world m body headers (ok request) none =
      (m, err ProxyError.proxy_instance_key_unavailable)
  with_request http config world m body headers (ok request) (some found) =
      let (m', r) = open_session http config world m request body headers in
      (m', r >>= λ session. accept config request found session)

  unfoldable pub create_chat_completion :
      (http : HeaderLib)
      → Serde
      → ProxyConfig
      → Option (ProxyInstanceKey lib)
      → Outside
      → SessionManager
      → Value
      → http.HeaderMap
      → SessionManager × Result Fault AcceptedRequest
  create_chat_completion http serde config instance_key world m body headers =
      with_request http config world m body headers (parse serde body) instance_key

  -- The request to Venice of a chat without tools, and the keys in its headers.
  pub record VeniceCall : Type 0 where
    pub prepared : PreparedVeniceChatRequest
    pub client_public_key_hex : Text
    pub model_public_key_hex : Text

  unfoldable pub plain_call :
      (ℕ → lib.SecretKey × List ℕ) → AcceptedRequest → Result Fault VeniceCall
  plain_call fresh accepted = do
    prepared ←
        map_err (λ why. ProxyError.chat_construction why)
          (to_venice_e2ee_request lib fresh accepted.request accepted.codec
            accepted.model_public_key)
    ok (record {
      prepared = prepared;
      client_public_key_hex = accepted.proxy_instance_key.public_key_hex;
      model_public_key_hex = accepted.model_public_key;
    })
