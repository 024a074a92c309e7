-- ===== src/Chat/Upstream.antt =====
-- src/openai/chat.rs: the encrypted request to Venice. The random key and nonce of each encryption
-- are those of the message's place.
use venice_e2ee_proxy.Base.{
  ℕ, suc, Bool, true, Option, Result, ok, ◌>>=◌, map_err, unwrap_or, List, [], ◌∷◌, ◌++◌,
}
use venice_e2ee_proxy.Text.{Text}
use venice_e2ee_proxy.Json.{Value}
use venice_e2ee_proxy.Chat.{
  ChatCompletionRequest, NormalizedChatMessage, ReasoningOptions, StopSequence, VeniceParameters,
}
use venice_e2ee_proxy.E2ee.{CryptoLib, E2eeCodec, E2eeCodecError, encrypt_content}

pub record VeniceStreamOptions : Type 0 where
  pub include_usage : Bool

pub record VeniceE2eeChatRequest : Type 0 where
  pub model : Text
  pub messages : List NormalizedChatMessage
  pub stream : Bool
  pub stream_options : VeniceStreamOptions
  pub venice_parameters : VeniceParameters
  pub temperature : Option Value
  pub top_p : Option Value
  pub max_tokens : Option ℕ
  pub max_completion_tokens : Option ℕ
  pub stop : Option StopSequence
  pub reasoning : Option ReasoningOptions
  pub reasoning_effort : Option Text

pub record PreparedVeniceChatRequest : Type 0 where
  pub client_stream : Bool
  pub upstream : VeniceE2eeChatRequest

-- The request of the encrypted messages.
unfoldable pub prepared :
    ChatCompletionRequest → List NormalizedChatMessage → PreparedVeniceChatRequest
prepared request encrypted = record {
  client_stream = request.stream;
  upstream = record {
    model = request.model;
    messages = encrypted;
    stream = true;
    stream_options = record { include_usage = unwrap_or request.stream_options.include_usage true };
    venice_parameters = request.venice_parameters;
    temperature = request.passthrough.temperature;
    top_p = request.passthrough.top_p;
    max_tokens = request.passthrough.max_tokens;
    max_completion_tokens = request.passthrough.max_completion_tokens;
    stop = request.passthrough.stop;
    reasoning = request.reasoning;
    reasoning_effort = request.reasoning_effort;
  };
}

-- `ChatConstructionError::E2ee`.
pub data ChatConstructionError (HexError : Type 0) : Type 0 where
  e2ee : E2eeCodecError HexError → ChatConstructionError HexError

module _ (lib : CryptoLib) (fresh : ℕ → lib.SecretKey × List ℕ) where
  -- The messages from a place on, encrypted.
  unfoldable pub encrypt_messages :
      E2eeCodec
      → Text
      → ℕ
      → List NormalizedChatMessage
      → Result (ChatConstructionError lib.HexError) (List NormalizedChatMessage)
  encrypt_messages codec key place [] = ok []
  encrypt_messages codec key place (message ∷ messages) = do
    let (ephemeral, nonce) = fresh place
    payload ← map_err e2ee (encrypt_content lib codec message.content key ephemeral nonce)
    rest ← encrypt_messages codec key (suc place) messages
    ok (record { role = message.role; content = payload.as_hex } ∷ rest)

  unfoldable pub to_venice_e2ee_request_with_messages :
      ChatCompletionRequest
      → E2eeCodec
      → Text
      → List NormalizedChatMessage
      → List NormalizedChatMessage
      → Result (ChatConstructionError lib.HexError) PreparedVeniceChatRequest
  to_venice_e2ee_request_with_messages request codec key prefix_messages suffix_messages = do
    encrypted ←
        encrypt_messages codec key 0 (prefix_messages ++ (request.messages ++ suffix_messages))
    ok (prepared request encrypted)

  unfoldable pub to_venice_e2ee_request :
      ChatCompletionRequest
      → E2eeCodec
      → Text
      → Result (ChatConstructionError lib.HexError) PreparedVeniceChatRequest
  to_venice_e2ee_request request codec key =
      to_venice_e2ee_request_with_messages request codec key [] []
