-- ===== src/Chat/Sealed.antt =====
-- The request that Venice is sent: every message is encrypted to the model's key.
use venice_e2ee_proxy.Base.{
  ℕ, suc, ◌≤◌, ◌^◌, unwrap_or, ◌≡◌, refl, true, some, ok, List, [], ◌∷◌, ◌++◌, All, length,
}
use venice_e2ee_proxy.Text.Utf8.{IsByte, IsScalar, as_bytes}
use venice_e2ee_proxy.Chat.{ChatCompletionRequest, NormalizedChatMessage}
use venice_e2ee_proxy.Chat.Upstream.{
  PreparedVeniceChatRequest, VeniceE2eeChatRequest, encrypt_messages,
  to_venice_e2ee_request_with_messages, prepared,
}
use venice_e2ee_proxy.E2ee.{
  CryptoLib, E2eeCodec, EncryptedPayload, decrypt_response_content,
  derive_content_key_from_public_key,
}
use venice_e2ee_proxy.E2ee.Crypto.{CryptoLaws}
use venice_e2ee_proxy.E2ee.Keys.{public_key_hex}
use venice_e2ee_proxy.E2ee.RoundTrip.{encrypt_content-ok, decrypt_response_content-encrypt_content}
use venice_e2ee_proxy.E2ee.Packed.{payload_of, packed_bytes}

-- Content of scalar values, of no more bytes than AES-GCM takes.
abbrev pub IsSendable : NormalizedChatMessage → Type 0
IsSendable message = All IsScalar message.content × (length (as_bytes message.content) ≤ 2 ^ 36)

-- The request to Venice has the model and every parameter of the request that it is made from, and
-- asks for a stream with the usage in it unless the request says not to.
unfoldable pub SameParameters : ChatCompletionRequest → VeniceE2eeChatRequest → Type 0
SameParameters request upstream =
    (upstream.model ≡ request.model)
    × (upstream.stream ≡ true)
    × (upstream.stream_options.include_usage ≡ unwrap_or request.stream_options.include_usage true)
    × (upstream.venice_parameters ≡ request.venice_parameters)
    × (upstream.temperature ≡ request.passthrough.temperature)
    × (upstream.top_p ≡ request.passthrough.top_p)
    × (upstream.max_tokens ≡ request.passthrough.max_tokens)
    × (upstream.max_completion_tokens ≡ request.passthrough.max_completion_tokens)
    × (upstream.stop ≡ request.passthrough.stop)
    × (upstream.reasoning ≡ request.reasoning)
    × (upstream.reasoning_effort ≡ request.reasoning_effort)

module _ (lib : CryptoLib) (laws : CryptoLaws lib) (codec : E2eeCodec) (secret : lib.SecretKey)
    (fresh : ℕ → lib.SecretKey × List ℕ) where
  -- Message by message: the same role, and content that the key's holder decrypts to the message's.
  unfoldable pub Sealed : List NormalizedChatMessage → List NormalizedChatMessage → Type 0
  Sealed [] [] = Unit
  Sealed [] (s ∷ sent) = ⊥
  Sealed (m ∷ messages) [] = ⊥
  Sealed (m ∷ messages) (s ∷ sent) =
      (s.role ≡ m.role)
      × (decrypt_response_content lib codec (some s.content) secret ≡ ok (some m.content))
      × Sealed messages sent

  -- Fresh nonces of 12 bytes.
  abbrev pub FreshNonces : Type 0
  FreshNonces = (place : ℕ) → (length (fresh place).1 ≡ 12) × All IsByte (fresh place).1

  -- AES-GCM takes a derived key, a nonce of 12 bytes and a message of 2 ^ 36 bytes at most.
  abbrev pub Encrypts : Type 0
  Encrypts =
      (shared : lib.SharedSecret) (info nonce message : List ℕ)
      → length nonce ≡ 12
      → length message ≤ 2 ^ 36
      → (sealed : List ℕ) × (lib.encrypt (lib.expand shared info) nonce message ≡ some sealed)

  abbrev sent_message : NormalizedChatMessage → EncryptedPayload → NormalizedChatMessage
  sent_message m payload = record { role = m.role; content = payload.as_hex }

  encrypt_messages-Sealed :
      (place : ℕ) (messages : List NormalizedChatMessage)
      → FreshNonces
      → Encrypts
      → All IsSendable messages
      → (sent : List NormalizedChatMessage) × (encrypt_messages lib fresh codec
            (public_key_hex lib secret)
            place
            messages
          ≡ ok sent)
        × Sealed messages sent
  unfolding encrypt_messages Sealed derive_content_key_from_public_key
  encrypt_messages-Sealed place [] nonces encrypts scalars = ([], refl, tt)
  encrypt_messages-Sealed place (m ∷ messages) nonces encrypts ((here, small), scalars) =
      let (ephemeral, nonce) = fresh place in
      let (sealed, e) =
        encrypts _ codec.hkdf_info nonce (as_bytes m.content) (nonces place).0 small in
      let encrypted = encrypt_content-ok lib laws codec m.content secret ephemeral nonce sealed e in
      let (sent, e', rest) = encrypt_messages-Sealed (suc place) messages nonces encrypts scalars in
      let sealed_payload =
        payload_of (lib.hex_encode (packed_bytes lib laws ephemeral nonce sealed)) in
      (
        sent_message m sealed_payload ∷ sent,
        rw (encrypted, e'),
        (
          refl,
          decrypt_response_content-encrypt_content lib laws codec m.content secret ephemeral nonce
              sealed_payload here (nonces place).0 (nonces place).1 encrypted,
          rest,
        ),
      )

  -- The request to Venice exists, has the model and every parameter of the request it is made from,
  -- streams, and each of its messages has the role and, for the holder of the model's key, the content
  -- of the message at its place among prefix, request and suffix; where AES-GCM takes nonces of 12
  -- bytes and messages of 2 ^ 36 bytes at most, and nonces and contents are such, the contents of
  -- scalar values.
  pub to_venice-Sealed :
      (request : ChatCompletionRequest)
      (prefix_messages suffix_messages : List NormalizedChatMessage)
      → FreshNonces
      → Encrypts
      → All IsSendable (prefix_messages ++ (request.messages ++ suffix_messages))
      → (result : PreparedVeniceChatRequest) × (to_venice_e2ee_request_with_messages lib fresh
            request codec
            (public_key_hex lib secret)
            prefix_messages
            suffix_messages
          ≡ ok result)
        × Sealed (prefix_messages ++ (request.messages ++ suffix_messages)) result.upstream.messages
        × SameParameters request result.upstream
        × (result.client_stream ≡ request.stream)
  unfolding to_venice_e2ee_request_with_messages prepared SameParameters
  to_venice-Sealed request prefix_messages suffix_messages nonces encrypts scalars =
      let (sent, e, sealed) =
        encrypt_messages-Sealed 0 (prefix_messages ++ (request.messages ++ suffix_messages)) nonces
          encrypts scalars in
      (
        prepared request sent,
        rw (e),
        sealed,
        (refl, refl, refl, refl, refl, refl, refl, refl, refl, refl, refl),
        refl,
      )
