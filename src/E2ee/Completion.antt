-- ===== src/E2ee/Completion.antt =====
-- The codec under the stream handlers: a buffered completion of encrypted events has their texts.
mod Tests
use venice_e2ee_proxy.Base.{
  ℕ, ◌≡◌, refl, ap, ◌∙◌, true, Option, some, ok, List, [], ◌∷◌, ◌++◌, length, All, arith, none,
  false, inr, inl,
}
use venice_e2ee_proxy.Text.{Text}
use venice_e2ee_proxy.Text.Utf8.{IsByte, IsScalar}
use venice_e2ee_proxy.Json.{Value}
use venice_e2ee_proxy.Stream.{StreamLib, RawSseEvent}
use venice_e2ee_proxy.Stream.Classify.{
  done, choice, classify_upstream_event, read_choice, Choice, read_index,
}
use venice_e2ee_proxy.Stream.Chunk.{ChunkContext}
use venice_e2ee_proxy.Stream.Completion.{
  OpenAiChatCompletionBuffer, new_buffer, handle_event, close, record_metadata, append_choice,
}
use venice_e2ee_proxy.Stream.Completion.Steps.{
  FirstChoice, at_end, choice_content_lem, at_choice, taken, goes_on, ended,
}
use venice_e2ee_proxy.Stream.Completion.Loop.{handle_all}
use venice_e2ee_proxy.Stream.Completion.Content.{content_before_end, handle_all-content}
use venice_e2ee_proxy.E2ee.{
  CryptoLib, E2eeCodec, EncryptedPayload, E2eeCodecError, encrypt_content, decrypt_response_content,
}
use venice_e2ee_proxy.E2ee.Crypto.{CryptoLaws}
use venice_e2ee_proxy.E2ee.Keys.{public_key_hex}
use venice_e2ee_proxy.E2ee.RoundTrip.{decrypt_response_content-encrypt_content}

-- `ChunkContext`'s codec and private key, beside the parsers of the stream.
unfoldable pub stream_lib :
    (lib : CryptoLib)
    → E2eeCodec
    → lib.SecretKey
    → (ToolError : Type 0) → (Text → Option Value)
    → StreamLib
stream_lib lib codec secret ToolError from_str = record {
  CodecError = E2eeCodecError lib.HexError;
  ToolError = ToolError;
  from_str = from_str;
  decrypt_response_content = λ content. decrypt_response_content lib codec content secret;
}

module _ (lib : CryptoLib) (laws : CryptoLaws lib) (codec : E2eeCodec) (secret : lib.SecretKey)
    (ToolError : Type 0) (from_str : Text → Option Value) where
  abbrev pub stream : StreamLib
  stream = stream_lib lib codec secret ToolError from_str

  -- The event is a choice whose content is the text, encrypted to the instance's announced key.
  unfoldable pub Carries : RawSseEvent → Text → Type 0
  Carries event plaintext =
      (value chunk : Value) × (c : Choice) × (ephemeral : lib.SecretKey) × (nonce : List ℕ)
      × (payload : EncryptedPayload) × (classify_upstream_event stream event
          ≡ ok (choice value chunk))
      × (read_index chunk ≡ ok 0)
      × (read_choice chunk ≡ ok c)
      × (c.content ≡ some payload.as_hex)
      × (c.reasoning_content ≡ none)
      × (length nonce ≡ 12)
      × All IsByte nonce
      × All IsScalar plaintext
      × (encrypt_content lib codec plaintext (public_key_hex lib secret) ephemeral nonce
          ≡ ok payload)

  -- Events that carry these texts in turn, and the end of the stream.
  pub data CarriesAll : List RawSseEvent → List Text → Type 0 where
    ends :
        (event : RawSseEvent) (rest : List RawSseEvent)
        → classify_upstream_event stream event ≡ ok done
        → CarriesAll (event ∷ rest) []
    next :
        (event : RawSseEvent) (rest : List RawSseEvent) (plaintext : Text) (texts : List Text)
        → Carries event plaintext
        → CarriesAll rest texts
        → CarriesAll (event ∷ rest) (plaintext ∷ texts)

  abbrev pub concat : List Text → Text
  concat [] = []
  concat (s ∷ texts) = s ++ concat texts

  carried :
      (event : RawSseEvent) (rest : List RawSseEvent) (plaintext : Text)
      → Carries event plaintext
      → content_before_end stream (event ∷ rest) ≡ plaintext ++ content_before_end stream rest
  unfolding Carries stream_lib
  carried event rest plaintext
        (
          value, chunk, c, ephemeral, nonce, payload, kind, place, read, content, plain, long,
          bytes, scalars, encrypted,
        ) =
      at_choice stream event rest value chunk kind
      ∙ ap (λ z. z ++ content_before_end stream rest)
          (choice_content_lem stream event rest chunk c payload.as_hex plaintext read content (
            decrypt_response_content-encrypt_content lib laws codec plaintext secret ephemeral nonce
              payload scalars long bytes encrypted))

  carried_step :
      (b : OpenAiChatCompletionBuffer) (event : RawSseEvent) (plaintext : Text)
      → FirstChoice b
      → Carries event plaintext
      → (after : OpenAiChatCompletionBuffer) × (handle_event stream b event ≡ ok ((false, after)))
        × FirstChoice after
        × (after.saw_encrypted_response_field ≡ true)
  unfolding Carries stream_lib append_choice FirstChoice record_metadata
  carried_step b event plaintext first
        (
          value, chunk, c, ephemeral, nonce, payload, kind, place, read, content, plain, long,
          bytes, scalars, encrypted,
        ) =
      (
        append_choice (record_metadata b value) (some 0) c (some plaintext) none,
        taken stream event b value chunk c payload.as_hex plaintext first kind place read content
            plain
            (decrypt_response_content-encrypt_content lib laws codec plaintext secret ephemeral
              nonce payload scalars long bytes encrypted),
        inr refl,
        ground (arith, content),
      )

  carried_all :
      (events : List RawSseEvent) (texts : List Text)
      → CarriesAll events texts
      → content_before_end stream events ≡ concat texts
  carried_all _ _ (ends event rest kind) = at_end stream event rest kind
  carried_all _ _ (next event rest plaintext texts one others) =
      carried event rest plaintext one ∙ ap (λ z. plaintext ++ z) (carried_all rest texts others)

  carried_on :
      (b : OpenAiChatCompletionBuffer) (events : List RawSseEvent) (texts : List Text)
      → FirstChoice b
      → b.saw_encrypted_response_field ≡ true
      → CarriesAll events texts
      → (b' : OpenAiChatCompletionBuffer) × (handle_all stream b events ≡ ok ((true, b')))
  unfolding handle_all Carries
  carried_on b _ _ first saw (ends event rest kind) = (close b, rw (ended stream event b saw kind))
  carried_on b _ _ first saw (next event rest plaintext texts one others) =
      let (after, e, first', saw') = carried_step b event plaintext first one in
      let (b', e') = carried_on after rest texts first' saw' others in
      (b', goes_on stream event b after rest e e')

  -- A body of events that carry texts encrypted to the announced key of the instance, one at least,
  -- up to the end of the stream, is buffered without an error, and to their concatenation.
  pub handle_all-CarriesAll :
      (ctx : ChunkContext) (events : List RawSseEvent) (plaintext : Text) (texts : List Text)
      → CarriesAll events (plaintext ∷ texts)
      → (b : OpenAiChatCompletionBuffer) × (handle_all stream (new_buffer ctx) events
          ≡ ok ((true, b)))
        × (b.content ≡ concat (plaintext ∷ texts))
  unfolding new_buffer handle_all FirstChoice
  handle_all-CarriesAll ctx events plaintext texts (next event rest _ _ one others) =
      let (after, e, first, saw) = carried_step (new_buffer ctx) event plaintext (inl refl) one in
      let (b, e') = carried_on after rest texts first saw others in
      let handled = goes_on stream event (new_buffer ctx) after rest e e' in
      (
        b,
        handled,
        handle_all-content stream events (new_buffer ctx) (true, b) handled
            ∙ carried_all events (plaintext ∷ texts) (next event rest plaintext texts one others),
      )
