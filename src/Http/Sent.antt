-- ===== src/Http/Sent.antt =====
-- What the handler sends to Venice for an accepted request without tool emulation.
use venice_e2ee_proxy.Base.{ℕ, ◌≡◌, refl, sym, subst, ◌⊎◌, some, ok, List, [], All, append-nil}
use venice_e2ee_proxy.Dict.{Entries}
use venice_e2ee_proxy.Json.{Value}
use venice_e2ee_proxy.E2ee.{CryptoLib}
use venice_e2ee_proxy.E2ee.Crypto.{CryptoLaws}
use venice_e2ee_proxy.E2ee.Keys.{ProxyInstanceKey, public_key_hex}
use venice_e2ee_proxy.Sessions.{SessionManager}
use venice_e2ee_proxy.Sessions.Identifier.{HeaderLib}
use venice_e2ee_proxy.Sessions.Invariant.{IsWellFormed}
use venice_e2ee_proxy.Sessions.Keys.{IsPlain}
use venice_e2ee_proxy.Attestation.Keys.{AttestationLib}
use venice_e2ee_proxy.Chat.{Serde}
use venice_e2ee_proxy.Chat.Parse.{parse}
use venice_e2ee_proxy.Chat.Upstream.{PreparedVeniceChatRequest, to_venice_e2ee_request}
use venice_e2ee_proxy.Chat.Sealed.{
  Encrypts, FreshNonces, IsSendable, SameParameters, Sealed, to_venice-Sealed,
}
use venice_e2ee_proxy.Tools.Emulation.{ToolLib}
use venice_e2ee_proxy.Http.Metadata.{ProxyConfig}
use venice_e2ee_proxy.Http.Requests.{
  AcceptedRequest, Outside, VeniceCall, create_chat_completion, plain_call,
}
use venice_e2ee_proxy.Http.Attested.{Cached, Fetched, create_chat_completion-Attested}

module _ (lib : CryptoLib) (laws : CryptoLaws lib) (digests : AttestationLib) (tool_lib : ToolLib)
    (CodecError : Type 0) (ToolError : Type 0) (fresh : ℕ → lib.SecretKey × List ℕ) where
  abbrev Accepts : Type 0
  Accepts = AcceptedRequest lib digests tool_lib CodecError ToolError

  -- The call has the request's parameters, and its messages are encrypted to the holder's key.
  abbrev pub SentTo : lib.SecretKey → Accepts → PreparedVeniceChatRequest → Type 0
  SentTo holder accepted prepared =
      SameParameters accepted.request prepared.upstream
      × Sealed lib laws accepted.codec holder fresh accepted.request.messages
          prepared.upstream.messages

  sent :
      (accepted : Accepts) (holder : lib.SecretKey)
      → accepted.model_public_key ≡ public_key_hex lib holder
      → FreshNonces lib laws accepted.codec holder fresh
      → Encrypts lib laws accepted.codec holder fresh
      → All IsSendable accepted.request.messages
      → (prepared : PreparedVeniceChatRequest) × (to_venice_e2ee_request lib fresh accepted.request
            accepted.codec accepted.model_public_key
          ≡ ok prepared)
        × SentTo holder accepted prepared
  unfolding to_venice_e2ee_request
  sent accepted holder held nonces encrypts sendable =
      let messages = accepted.request.messages in
      let (prepared, e, sealed, same, streams) =
        to_venice-Sealed lib laws accepted.codec holder fresh accepted.request [] [] nonces encrypts
          (subst (All IsSendable) (sym (append-nil messages)) sendable) in
      (
        prepared,
        subst
            (λ key.
              to_venice_e2ee_request lib fresh accepted.request accepted.codec key ≡ ok prepared)
            (sym held) e,
        (
          same,
          subst (λ ms. Sealed lib laws accepted.codec holder fresh ms prepared.upstream.messages)
              (append-nil messages) sealed,
        ),
      )

  module _ (config : ProxyConfig) (world : Outside lib digests tool_lib CodecError ToolError) where
    -- An accepted request that is sent without tool emulation is sent, with its own parameters, the
    -- announced key of this instance and the model key of the accepted request. The holder of that
    -- key decrypts each message, with its role. The key is one that a session of the request's own
    -- model had in the manager, or that an attestation of its own model accepted now binds, whatever
    -- other requests do to the sessions meanwhile. This holds where no model id holds a colon, the
    -- model key is a key pair's, AES-GCM takes nonces of 12 bytes and messages of 2 ^ 36 bytes at
    -- most, and nonces and contents are such, the contents of scalar values.
    pub create_chat_completion-Sent :
        (http : HeaderLib) (serde : Serde) (instance_key : ProxyInstanceKey lib)
        (m : SessionManager) (body : Value) (headers : http.HeaderMap) (accepted : Accepts)
        (holder : lib.SecretKey)
        → IsWellFormed m
        → Entries (λ _ s. IsPlain s.model_id) m.sessions
        → IsPlain accepted.request.model
        → (create_chat_completion lib digests tool_lib CodecError ToolError http serde config
            (some instance_key)
            world
            m
            body
            headers).1
          ≡ ok accepted
        → accepted.model_public_key ≡ public_key_hex lib holder
        → FreshNonces lib laws accepted.codec holder fresh
        → Encrypts lib laws accepted.codec holder fresh
        → All IsSendable accepted.request.messages
        → (call : VeniceCall lib digests tool_lib CodecError ToolError) × (plain_call lib digests
              tool_lib CodecError ToolError fresh accepted
            ≡ ok call)
          × (parse serde body ≡ ok accepted.request)
          × (call.client_public_key_hex ≡ instance_key.public_key_hex)
          × SentTo holder accepted call.prepared
          × (call.model_public_key_hex ≡ public_key_hex lib holder)
          × (Cached lib digests tool_lib CodecError ToolError config world m accepted.request.model
                call.model_public_key_hex
              ⊎ Fetched lib digests tool_lib CodecError ToolError config world
                  accepted.request.model call.model_public_key_hex)
    unfolding plain_call
    create_chat_completion-Sent http serde instance_key m body headers accepted holder w plain p h
          held nonces encrypts sendable =
        let (parsed, same, from) =
          create_chat_completion-Attested lib digests tool_lib CodecError ToolError config world
            http serde (some instance_key) m body headers accepted w plain p h in
        let (prepared, e, sent_to) = sent accepted holder held nonces encrypts sendable in
        (
          record {
            prepared = prepared;
            client_public_key_hex = accepted.proxy_instance_key.public_key_hex;
            model_public_key_hex = accepted.model_public_key;
          },
          rw e refl,
          parsed,
          cc,
          sent_to,
          held,
          from,
        )
