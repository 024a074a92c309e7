-- ===== src/Lib.antt =====
-- Verification library of the Venice E2EE proxy, an OpenAI-compatible proxy in Rust.
--
-- The proxy takes an OpenAI chat request, resolves a session for its model, attests the model's
-- enclave, encrypts the messages to the attested key, and reads the encrypted answer as a stream of
-- Server-Sent Events, which it decrypts and hands on: as one completion, as a plain stream, or, for
-- requests with tools, as text in which tool calls are recognised, validated and asked for again.
--
-- The parts, and the files that model them:
--
-- * Sessions (src/sessions.rs, the session section of src/config.rs). `Sessions` has the data and the
--   expiry, `Sessions/Identifier` the resolution of a session identifier, `Sessions/Manager` the
--   methods of SessionManager (get_or_create_at, set_attested_model_state_at, cleanup_expired_at). A
--   method returns the manager after it; the manager's lock makes each one step. Times are numbers of
--   nanoseconds, the clock and the fresh Uuid are arguments, the http crate's headers a parameter.
-- * The SSE parser (src/http.rs, SseEventParser). `Sse` has push, finish, sse_event_boundary and
--   parse_sse_event on the parser's buffer. Positions count characters where the code counts bytes,
--   and only cut the text that was searched. The loop of push runs on fuel, the buffer's length: each
--   round takes a delimiter of two characters or more out of the buffer.
-- * Upstream events (src/http.rs). `Stream` has the events, outputs and errors, `Stream/Classify`
--   classify_upstream_event and the checked fields, `Stream/Chunk` the chunks that are emitted. An
--   error message is a constructor with what the code formats into it. `StreamLib` stands for
--   serde_json's parser and for the codec's decryption of one field with the instance's key.
-- * The transformers (src/http.rs). `Stream/Completion` is OpenAiChatCompletionBuffer, with
--   `Stream/Completion/Loop` for buffer_openai_chat_completion; `Stream/Plain` is
--   OpenAiChatStreamTransformer; `Stream/Tool` and `Stream/Tool/Handler` are
--   OpenAiToolEmulatedChatStreamTransformer. A handler returns the transformer after it and its
--   outputs; after an error the code drops the transformer, so an error carries none.
-- * The E2EE codec (src/e2ee.rs, src/keys.rs). `E2ee` has E2eeCodec and EncryptedPayload, `E2ee/Keys`
--   ProxyInstanceKey. The crates k256, hkdf, aes-gcm and hex are the record CryptoLib, with their
--   documented laws in `E2ee/Crypto` and a concrete instance for the tests in `E2ee/Sample`. Bytes are
--   numbers below 256; random keys and nonces are arguments. `E2ee/Completion` puts the codec under
--   the buffered completion.
-- * The chat request (src/openai/chat.rs). `Chat` has the types and errors, `Chat/Reading` the fields,
--   `Chat/Messages` normalize_messages, `Chat/Parse` ChatCompletionRequest::parse, `Chat/Upstream`
--   to_venice_e2ee_request_with_messages over the codec. serde's deserialisation of each typed field,
--   serde_json's parser and its printer are the record Serde.
-- * The attestation (src/attestation.rs). `Attestation` has the types and error codes,
--   `Attestation/Keys` the signing key, address, nonce and quote, `Attestation/Evidence`
--   verify_attestation_evidence, as it checks the answer, the key and the policy in turn. The fetched
--   evidence as serde reads it, the clock and the hashes are arguments.
-- * Tool emulation (src/tools.rs). `Tools` has classify_assistant_output, `Tools/Schema` and
--   `Tools/Validate` the JSON schemas of the tools, `Tools/Emulation` ToolEmulationContext from a
--   request to validated calls. The code's recursion over schemas is a fold over the schema, so it
--   needs no fuel. The vendored parsers, serde_json and the ids are the record ToolLib.
-- * The model list (src/venice.rs, src/openai.rs). `Venice` has the filter of the models, the check of
--   a status and the error codes.
-- * The handler (src/http.rs, create_chat_completion, ensure_attested_session, ProxyError). `Http` has
--   the errors with their status, type and code, `Http/Metadata` the metadata; `Http/Requests` takes a
--   request from its JSON through its session and the attestation of the model to the encrypted
--   request; `Http/Attested` and `Http/Sent` follow the model's key on that way. What other requests
--   do to the sessions while the evidence is fetched is an argument.
-- * Attempts (src/http.rs). `Attempts` has the retry loop of openai_tool_emulated_chat_response and
--   tool_stream_event_outputs, over what each attempt yields; `Attempts/Completion` rewrites a
--   completion to one with tool calls. The loop runs on fuel, max_retries + 1 rounds.
--
-- `Base`, `Text`, `Dict` and `Json` hold what the parts share: Rust's Result, str, maps and
-- serde_json's Value. A string is the list of its scalar values; its length in bytes is
-- `Text/Bytes`, its bytes are `Text/Utf8`. An object that the code builds lists its entries as they
-- are written, a parsed one in the map's order.
--
-- Not modelled: the sockets, the router, logging and start-up (src/main.rs, src/http.rs) and the HTTP
-- calls of src/venice.rs, which are I/O; the vendored parsers of src/vllm_tool_parser; the bodies of
-- the error responses and the writing of the metadata headers (src/http.rs); of src/tools.rs the
-- lenient parser, the texts of the prompts and the cutting of an output for them; and the rest of the
-- configuration (src/config.rs).
pub mod Base
pub mod Text
pub mod Dict
pub mod Json
pub mod Sessions
pub mod Tools
pub mod Stream
pub mod Sse
pub mod E2ee
pub mod Chat
pub mod Attestation
pub mod Venice
pub mod Attempts
pub mod Http
