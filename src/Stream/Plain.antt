-- ===== src/Stream/Plain.antt =====
-- src/http.rs: `OpenAiChatStreamTransformer`, which decrypts a stream chunk by chunk. A handler
-- returns the transformer after it and the outputs.
pub mod Once
pub mod Whole
mod Tests
use venice_e2ee_proxy.Base.{
  ℕ, Bool, true, false, not, Option, none, some, Result, ok, ◌>>=◌, map_err, List, [], ◌∷◌, ◌++◌,
  if◌then◌else◌, is_some, is_none, ◌||◌, ◌&&◌, ◌>>=◌,
}
use venice_e2ee_proxy.Text.{Text, text}
use venice_e2ee_proxy.Json.{Value, string, null, object, from_entries, is_null}
use venice_e2ee_proxy.Stream.{
  StreamLib, StreamError, RawSseEvent, StreamOutput, malformed_event, decrypt_field,
}
use venice_e2ee_proxy.Stream.Classify.{
  UpstreamEventKind, done, usage, choice, classify_upstream_event, Choice, read_choice,
  normalized_choice_index, read_usage,
}
use venice_e2ee_proxy.Stream.Chunk.{ChunkContext, chunk_with_choice, usage_chunk}

pub record OpenAiChatStreamTransformer : Type 0 where
  pub ctx : ChunkContext
  pub include_usage_requested : Bool
  pub sent_role : Bool
  pub sent_final_finish : Bool

unfoldable pub new_transformer : ChunkContext → Bool → OpenAiChatStreamTransformer
new_transformer ctx include_usage = record {
  ctx = ctx;
  include_usage_requested = include_usage;
  sent_role = false;
  sent_final_finish = false;
}

abbrev pub empty_delta : Value
empty_delta = object (from_entries [])

unfoldable pub role_entry : Bool → List (Text × Value)
role_entry sent_role = if sent_role then [] else (text "role", string (text "assistant")) ∷ []

unfoldable pub text_entry : Text → Option Text → List (Text × Value)
text_entry name none = []
text_entry name (some content) = (name, string content) ∷ []

-- The delta of decrypted text.
unfoldable pub text_delta : Bool → Option Text → Option Text → Value
text_delta sent_role content reasoning = object (
    from_entries (
      role_entry sent_role
      ++ text_entry (text "reasoning_content") reasoning
      ++ text_entry (text "content") content))

-- The finish chunk, if the choice finishes.
unfoldable pub finish_outputs : ChunkContext → Value → ℕ → Value → List StreamOutput
finish_outputs ctx value index finish_reason =
    if is_null finish_reason
    then []
    else StreamOutput.json (chunk_with_choice ctx value index empty_delta finish_reason) ∷ []

-- The outputs of a choice with text in it: the text, and the finish chunk by itself.
unfoldable pub text_outputs :
    OpenAiChatStreamTransformer
    → Value
    → ℕ
    → Option Text
    → Option Text
    → Value
    → OpenAiChatStreamTransformer × List StreamOutput
text_outputs t value index content reasoning finish_reason = (
  record t {
    sent_role = true;
    sent_final_finish = t.sent_final_finish || not (is_null finish_reason);
  },
  StreamOutput.json
        (chunk_with_choice t.ctx value index (text_delta t.sent_role content reasoning) null)
      ∷ finish_outputs t.ctx value index finish_reason,
)

module _ (lib : StreamLib) where
  -- A choice that has no encrypted text: its finish chunk, if it finishes.
  unfoldable pub finish_only :
      OpenAiChatStreamTransformer
      → Value
      → Choice
      → Result (StreamError lib) (OpenAiChatStreamTransformer × List StreamOutput)
  finish_only t value c =
      if is_null c.finish_reason
      then ok (t, [])
      else (map_err malformed_event (normalized_choice_index c.index) >>= λ index. ok (
          (
            record t { sent_final_finish = true },
            finish_outputs t.ctx value index c.finish_reason,
          )))

  unfoldable pub decrypted_choice :
      OpenAiChatStreamTransformer
      → Value
      → Choice
      → Option Text
      → Option Text
      → Result (StreamError lib) (OpenAiChatStreamTransformer × List StreamOutput)
  decrypted_choice t value c content reasoning =
      if is_some content || is_some reasoning
      then (map_err malformed_event (normalized_choice_index c.index) >>= λ index.
          ok (text_outputs t value index content reasoning c.finish_reason))
      else ok (t, [])

  unfoldable pub handle_choice_chunk :
      OpenAiChatStreamTransformer
      → Value
      → Value
      → Result (StreamError lib) (OpenAiChatStreamTransformer × List StreamOutput)
  handle_choice_chunk t value choice_value = do
    c ← map_err malformed_event (read_choice choice_value)
    content ← decrypt_field lib c.content
    reasoning ← decrypt_field lib c.reasoning_content
    if is_none c.content && is_none c.reasoning_content
        then finish_only t value c
        else decrypted_choice t value c content reasoning

  unfoldable pub handle_usage_chunk :
      OpenAiChatStreamTransformer → Value → Result (StreamError lib) (List StreamOutput)
  handle_usage_chunk t value = do
    u ← map_err malformed_event (read_usage value)
    if t.include_usage_requested
        then ok (StreamOutput.json (usage_chunk t.ctx value u) ∷ [])
        else ok []

  unfoldable pub handle_kind :
      OpenAiChatStreamTransformer
      → UpstreamEventKind
      → Result (StreamError lib) (OpenAiChatStreamTransformer × List StreamOutput)
  handle_kind t done = ok (
      (
        record t { sent_final_finish = true },
        (if t.sent_final_finish
              then []
              else StreamOutput.json
                  (chunk_with_choice t.ctx null 0 empty_delta (string (text "stop")))
                ∷ [])
            ++ StreamOutput.done ∷ [],
      ))
  handle_kind t (usage value) = do outputs ← handle_usage_chunk t value; ok (t, outputs)
  handle_kind t (choice value c) = handle_choice_chunk t value c

  unfoldable pub handle_event :
      OpenAiChatStreamTransformer
      → RawSseEvent
      → Result (StreamError lib) (OpenAiChatStreamTransformer × List StreamOutput)
  handle_event t event = do kind ← classify_upstream_event lib event; handle_kind t kind
