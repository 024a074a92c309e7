-- ===== src/Http/Attested.antt =====
-- Where the key comes from that a request is encrypted to.
use venice_e2ee_proxy.Base.{
  ℕ, ◌≡◌, refl, sym, ap, subst, ◌∙◌, ◌⊎◌, inl, inr, Option, none, some, Result, ok, err,
  Result-cases, Bool-cases, ok_of_bind, ok_or-ok, ok_or, map_err, ok-injective,
}
use venice_e2ee_proxy.Text.{Text, is_empty}
use venice_e2ee_proxy.Text.Trim.{trim}
use venice_e2ee_proxy.Dict.{get, Entries}
use venice_e2ee_proxy.Dict.Laws.{get-Entries}
use venice_e2ee_proxy.Json.{Value}
use venice_e2ee_proxy.E2ee.{CryptoLib, from_config}
use venice_e2ee_proxy.E2ee.Keys.{ProxyInstanceKey}
use venice_e2ee_proxy.Sessions.{
  SessionManager, SessionContext, SessionError, SessionResolution, session_key, new_context,
}
use venice_e2ee_proxy.Sessions.Identifier.{
  HeaderLib, SessionRequest, ResolvedSessionIdentifier, resolve_identifier,
}
use venice_e2ee_proxy.Sessions.Invariant.{IsWellFormed, IsOwn, enter_cases, set_attested_cases}
use venice_e2ee_proxy.Sessions.Keys.{IsPlain, enter_own_model, session_key-injective}
use venice_e2ee_proxy.Sessions.Manager.{get_or_create_at, enter, attested, touch}
use venice_e2ee_proxy.Attestation.{VerifiedAttestation}
use venice_e2ee_proxy.Attestation.Keys.{AttestationLib, Failure}
use venice_e2ee_proxy.Chat.{ChatCompletionRequest, ChatRequestError, Serde}
use venice_e2ee_proxy.Chat.Parse.{parse}
use venice_e2ee_proxy.Tools.Emulation.{ToolLib, from_request}
use venice_e2ee_proxy.Chat.Upstream.{e2ee}
use venice_e2ee_proxy.Http.{ProxyError}
use venice_e2ee_proxy.Http.Metadata.{ProxyConfig}
use venice_e2ee_proxy.Http.Requests.{
  Outside, AcceptedRequest, store, store_unless, state_update, ensure_attested_session,
  open_session, accept, attest_resolved, open_session, with_request, create_chat_completion,
  verified_by, Fault,
}

module _ (lib : CryptoLib) (digests : AttestationLib) (tool_lib : ToolLib) (CodecError : Type 0)
    (ToolError : Type 0) where
  module _ (config : ProxyConfig) (world : Outside lib digests tool_lib CodecError ToolError) where
    -- A session of the model that the manager has under some key, with this model key.
    abbrev pub Cached : SessionManager → Text → Text → Type 0
    Cached m model_id pk =
        (key : Text) × (s : SessionContext) × (get key m.sessions ≡ some s)
        × (s.model_id ≡ model_id)
        × (s.attested_model_public_key ≡ some pk)

    -- An attestation of the model that is accepted now, with this model key.
    abbrev pub Fetched : Text → Text → Type 0
    Fetched model_id pk =
        (a : VerifiedAttestation) × (verified_by lib digests tool_lib CodecError ToolError config
            world model_id
          ≡ ok a)
        × (a.model_public_key ≡ pk)

    abbrev Accepts : Type 0
    Accepts = AcceptedRequest lib digests tool_lib CodecError ToolError

    abbrev fault : SessionError → Fault lib digests tool_lib CodecError ToolError
    fault why = ProxyError.session_error why

    some_same : {x y : Text} → ◌≡◌ {A = Option Text} (some x) (some y) → x ≡ y
    some_same h = cc

    store-key :
        (m : SessionManager) (session : SessionContext)
        (v : Result (Failure lib digests) VerifiedAttestation) (s : SessionContext) (pk : Text)
        → (store lib digests tool_lib CodecError ToolError m session world v).1 ≡ ok s
        → s.attested_model_public_key ≡ some pk
        → (a : VerifiedAttestation) × (v ≡ ok a) × (a.model_public_key ≡ pk)
    unfolding store attested state_update
    store-key m session (err why) s pk h e = cc
    store-key m session (ok a) s pk h e = (
      a,
      refl,
      set_attested_cases (λ o. map_err (λ why. fault why) o.1 ≡ ok s → a.model_public_key ≡ pk) m
          session.session_key (state_update a) world.stored_at (λ _ h. cc)
          (λ old _ _ h. some_same (ap (λ s. s.attested_model_public_key) (ok-injective h) ∙ e))
          (λ old reason _ _ h. cc) h,
    )

    entered-Cached :
        (m : SessionManager) (model_id : Text) (r : ResolvedSessionIdentifier) (now : ℕ) (pk : Text)
        → IsWellFormed m
        → Entries (λ _ s. IsPlain s.model_id) m.sessions
        → IsPlain model_id
        → (enter m model_id r now).1.session.attested_model_public_key ≡ some pk
        → Cached m model_id pk
    entered-Cached m model_id r now pk w plain p =
        enter_cases
          (λ out. out.1.session.attested_model_public_key ≡ some pk → Cached m model_id pk) m
          model_id r now w.distinct
          (λ s e f.
            unfold touch in
            λ h. (
              session_key model_id r.agent_session_id,
              s,
              e,
              (session_key-injective s.model_id model_id
                  (get-Entries (λ _ s. IsPlain s.model_id) _ m.sessions plain e) p
                  (get-Entries (IsOwn m.config) _ m.sessions w.own e).named).0,
              h,
            ))
          (λ e. unfold new_context in λ h. cc) (λ reason. unfold new_context in λ h. cc)

    resolved :
        (http : HeaderLib) (m : SessionManager) (request : SessionRequest http) (now : ℕ)
        (uuid : Text) (out : SessionResolution)
        → (get_or_create_at http m request now uuid).1 ≡ ok out
        → (r : ResolvedSessionIdentifier) × ((enter m request.model_id r now).1 ≡ out)
    unfolding get_or_create_at
    resolved http m request now uuid out = elim (Bool-cases (is_empty (trim request.model_id))) [
      | inl e ↦ rw e (λ h. cc)
      | inr e ↦ rw e (elim (Result-cases (resolve_identifier http m request uuid)) [
        | inl (r, f) ↦ rw f (λ h. (r, ok-injective h))
        | inr (why, f) ↦ rw f (λ h. cc)
      ])
    ]

    store_unless-key :
        (cached : Option Text) (m : SessionManager) (session s : SessionContext) (pk : Text)
        → session.attested_model_public_key ≡ cached
        → (store_unless lib digests tool_lib CodecError ToolError cached config world m session).1
          ≡ ok s
        → s.attested_model_public_key ≡ some pk
        → (session.attested_model_public_key ≡ some pk) ⊎ Fetched session.model_id pk
    unfolding store_unless
    store_unless-key none m session s pk f h e = inr (store-key (world.others m) session _ s pk h e)
    store_unless-key (some key) m session s pk f h e =
        inl (ap (λ s. s.attested_model_public_key) (ok-injective h) ∙ e)

    abbrev lookup :
        (http : HeaderLib) → ChatCompletionRequest → Value → http.HeaderMap → SessionRequest http
    lookup http request body headers = record {
      model_id = request.model;
      headers = headers;
      body = some body;
    }

    resolved-key :
        (http : HeaderLib) (m m' : SessionManager) (request : ChatCompletionRequest) (body : Value)
        (headers : http.HeaderMap) (answer : Result SessionError SessionResolution)
        (s : SessionContext) (pk : Text)
        → IsWellFormed m
        → Entries (λ _ s. IsPlain s.model_id) m.sessions
        → IsPlain request.model
        → (get_or_create_at http m (lookup http request body headers) world.entered_at world.uuid).1
          ≡ answer
        → (attest_resolved lib digests tool_lib CodecError ToolError config world m' answer).1
          ≡ ok s
        → s.attested_model_public_key ≡ some pk
        → Cached m request.model pk ⊎ Fetched request.model pk
    unfolding attest_resolved ensure_attested_session
    resolved-key http m m' request body headers (err why) s pk w plain p f h e = cc
    resolved-key http m m' request body headers (ok out) s pk w plain p f h e =
        let (r, same) = resolved http m (lookup http request body headers) _ _ out f in
        let own = enter_own_model m world.entered_at request.model r w plain p in
        elim (store_unless-key _ m' out.session s pk refl h e) [
          | inl c ↦ inl (
              entered-Cached m request.model r world.entered_at pk w plain p
                (ap (λ o. o.session.attested_model_public_key) same ∙ c))
          | inr fetched ↦ inr (
              subst (λ model. Fetched model pk) (sym (ap (λ o. o.session.model_id) same) ∙ own.0)
                fetched)
        ]

    accept-key :
        (request : ChatCompletionRequest) (instance_key : ProxyInstanceKey lib)
        (session : SessionContext) (accepted : Accepts)
        → accept lib digests tool_lib CodecError ToolError config request instance_key session
          ≡ ok accepted
        → (session.attested_model_public_key ≡ some accepted.model_public_key)
          × (accepted.request ≡ request)
          × (accepted.proxy_instance_key ≡ instance_key)
    unfolding accept
    accept-key request instance_key session accepted h =
        let (key, e, h1) = ok_of_bind (ok_or session.attested_model_public_key _) _ h in
        let (codec, _, h2) =
          ok_of_bind
            (map_err (λ why. ProxyError.chat_construction (e2ee why)) (from_config lib config.e2ee))
            _ h1 in
        let (context, _, h3) =
          ok_of_bind
            (map_err (λ why. ProxyError.chat_request why)
              (from_request tool_lib config.tools request))
            _ h2 in
        let same = ok-injective h3 in
        (
          ok_or-ok session.attested_model_public_key _ e ∙ ap (λ a. some a.model_public_key) same,
          sym (ap (λ a. a.request) same),
          sym (ap (λ a. a.proxy_instance_key) same),
        )

    with_request-key :
        (http : HeaderLib) (m : SessionManager) (body : Value) (headers : http.HeaderMap)
        (parsed : Result ChatRequestError ChatCompletionRequest)
        (instance_key : Option (ProxyInstanceKey lib)) (accepted : Accepts)
        → IsWellFormed m
        → Entries (λ _ s. IsPlain s.model_id) m.sessions
        → IsPlain accepted.request.model
        → (with_request lib digests tool_lib CodecError ToolError http config world m body headers
            parsed instance_key).1
          ≡ ok accepted
        → (parsed ≡ ok accepted.request)
          × (instance_key ≡ some accepted.proxy_instance_key)
          × (Cached m accepted.request.model accepted.model_public_key
              ⊎ Fetched accepted.request.model accepted.model_public_key)
    unfolding with_request open_session
    with_request-key http m body headers (err why) instance_key accepted w plain p h = cc
    with_request-key http m body headers (ok request) none accepted w plain p h = cc
    with_request-key http m body headers (ok request) (some found) accepted w plain p h =
        let opened =
          open_session lib digests tool_lib CodecError ToolError http config world m request body
            headers in
        let (session, e, h1) = ok_of_bind opened.1 _ h in
        let (key, same, same_instance) = accept-key request found session accepted h1 in
        (
          ap (λ r. ok r) (sym same),
          ap (λ k. some k) (sym same_instance),
          subst
              (λ (r : ChatCompletionRequest).
                Cached m r.model accepted.model_public_key
                ⊎ Fetched r.model accepted.model_public_key)
              (sym same)
              (resolved-key http m _ request body headers _ session accepted.model_public_key w
                plain (subst (λ (r : ChatCompletionRequest). IsPlain r.model) same p) refl e key),
        )

    -- The key of an accepted request, whatever other requests do to the sessions meanwhile.
    pub create_chat_completion-Attested :
        (http : HeaderLib) (serde : Serde) (instance_key : Option (ProxyInstanceKey lib))
        (m : SessionManager) (body : Value) (headers : http.HeaderMap) (accepted : Accepts)
        → IsWellFormed m
        → Entries (λ _ s. IsPlain s.model_id) m.sessions
        → IsPlain accepted.request.model
        → (create_chat_completion lib digests tool_lib CodecError ToolError http serde config
            instance_key world m body headers).1
          ≡ ok accepted
        → (parse serde body ≡ ok accepted.request)
          × (instance_key ≡ some accepted.proxy_instance_key)
          × (Cached m accepted.request.model accepted.model_public_key
              ⊎ Fetched accepted.request.model accepted.model_public_key)
    unfolding create_chat_completion
    create_chat_completion-Attested http serde instance_key m body headers accepted w plain p h =
        with_request-key http m body headers (parse serde body) instance_key accepted w plain p h
