-- ===== src/Stream/Completion.antt =====
-- src/http.rs: `OpenAiChatCompletionBuffer`, which turns a decrypted stream into one completion. A
-- handler returns the buffer after it; after an error the code drops the buffer.
pub mod Loop
pub mod Content
pub mod FailClosed
pub mod Steps
mod Tests
use venice_e2ee_proxy.Base.{
  ℕ, Bool, true, false, Option, none, some, Result, ok, err, ◌>>=◌, map_err, unwrap_or, List, [],
  ◌∷◌, ◌++◌, ◌==◌, if◌then◌else◌, is_some, ◌||◌, map_err,
}
use venice_e2ee_proxy.Text.{Text, text, is_empty}
use venice_e2ee_proxy.Json.{
  Value, string, number, null, object, array, Number, pos_int, from_entries, from_items, is_null,
}
use venice_e2ee_proxy.Stream.{
  StreamLib, StreamError, RawSseEvent, Malformed, malformed_event, choice_index_changed, decrypt,
  decrypt_field,
}
use venice_e2ee_proxy.Stream.Classify.{
  UpstreamEventKind, done, usage, choice, classify_upstream_event, string_field, integer_field,
  Choice, read_choice, read_index, read_usage,
}
use venice_e2ee_proxy.Stream.Chunk.{ChunkContext}

pub record OpenAiChatCompletionBuffer : Type 0 where
  pub ctx : ChunkContext
  pub id : Option Text
  pub created : Option Number
  pub model : Option Text
  pub choice_index : Option ℕ
  pub saw_encrypted_response_field : Bool
  pub content : Text
  pub reasoning_content : Text
  pub finish_reason : Option Value
  pub usage : Option Value

unfoldable pub new_buffer : ChunkContext → OpenAiChatCompletionBuffer
new_buffer ctx = record {
  ctx = ctx;
  id = none;
  created = none;
  model = none;
  choice_index = none;
  saw_encrypted_response_field = false;
  content = [];
  reasoning_content = [];
  finish_reason = none;
  usage = none;
}

-- The first of two, if there is one.
abbrev pub or_else {ℓ} : {A : Type ℓ} → Option A → Option A → Option A
or_else none second = second
or_else (some a) second = some a

unfoldable pub record_metadata : OpenAiChatCompletionBuffer → Value → OpenAiChatCompletionBuffer
record_metadata b value = record b {
  id = or_else b.id (string_field value (text "id"));
  created = or_else b.created (integer_field value (text "created"));
  model = or_else b.model (string_field value (text "model"));
}

-- `match self.choice_index`.
unfoldable pub same_index : Option ℕ → ℕ → Result Malformed (Option ℕ)
same_index none index = ok (some index)
same_index (some existing) index =
    if existing == index then ok (some existing) else err choice_index_changed

-- The finish reason of a chunk takes the place of an earlier one.
unfoldable pub latest : Option Value → Value → Option Value
latest previous reason = if is_null reason then previous else some reason

-- What a choice adds to the buffer once its fields are decrypted.
unfoldable pub append_choice :
    OpenAiChatCompletionBuffer
    → Option ℕ
    → Choice
    → Option Text
    → Option Text
    → OpenAiChatCompletionBuffer
append_choice b index c content reasoning = record b {
  choice_index = index;
  saw_encrypted_response_field =
      b.saw_encrypted_response_field || is_some c.content || is_some c.reasoning_content;
  content = b.content ++ unwrap_or content [];
  reasoning_content = b.reasoning_content ++ unwrap_or reasoning [];
  finish_reason = latest b.finish_reason c.finish_reason;
}

-- The end of the stream: with no encrypted field seen, `decrypt(None)` fails or not, as the codec demands.
unfoldable pub close : OpenAiChatCompletionBuffer → OpenAiChatCompletionBuffer
close b = record b { finish_reason = some (unwrap_or b.finish_reason (string (text "stop"))) }

module _ (lib : StreamLib) where
  unfoldable pub handle_choice_chunk :
      OpenAiChatCompletionBuffer → Value → Result (StreamError lib) OpenAiChatCompletionBuffer
  handle_choice_chunk b value = do
    index ← map_err malformed_event (read_index value)
    same ← map_err malformed_event (same_index b.choice_index index)
    c ← map_err malformed_event (read_choice value)
    content ← decrypt_field lib c.content
    reasoning ← decrypt_field lib c.reasoning_content
    ok (append_choice b same c content reasoning)

  unfoldable pub handle_done :
      OpenAiChatCompletionBuffer → Result (StreamError lib) OpenAiChatCompletionBuffer
  handle_done b = do
    checked ← if b.saw_encrypted_response_field then ok none else decrypt lib none
    ok (close b)

  -- Whether the stream reached its end, and the buffer.
  unfoldable pub handle_kind :
      OpenAiChatCompletionBuffer
      → UpstreamEventKind
      → Result (StreamError lib) (Bool × OpenAiChatCompletionBuffer)
  handle_kind b done = do closed ← handle_done b; ok (true, closed)
  handle_kind b (usage value) = do
    u ← map_err malformed_event (read_usage value)
    ok (false, record (record_metadata b value) { usage = some u })
  handle_kind b (choice value c) = do
    b' ← handle_choice_chunk (record_metadata b value) c
    ok (false, b')

  unfoldable pub handle_event :
      OpenAiChatCompletionBuffer
      → RawSseEvent
      → Result (StreamError lib) (Bool × OpenAiChatCompletionBuffer)
  handle_event b event = do kind ← classify_upstream_event lib event; handle_kind b kind

-- The message's `reasoning_content` entry, only when there is such text.
unfoldable pub reasoning_entry : Text → List (Text × Value)
reasoning_entry content =
    if is_empty content then [] else (text "reasoning_content", string content) ∷ []

unfoldable pub message : OpenAiChatCompletionBuffer → Value
message b = object (
    from_entries (
      (text "role", string (text "assistant")) ∷ reasoning_entry b.reasoning_content
      ++ (text "content", string b.content) ∷ []))

unfoldable pub into_response : OpenAiChatCompletionBuffer → Value
into_response b =
    let choice_entry = object (
      from_entries (
        (text "index", number (pos_int (unwrap_or b.choice_index 0)))
        ∷ (text "message", message b)
        ∷ (text "finish_reason", unwrap_or b.finish_reason (string (text "stop")))
        ∷ [])) in
    object (
      from_entries (
        (text "id", string (unwrap_or b.id b.ctx.fallback_id))
        ∷ (text "object", string (text "chat.completion"))
        ∷ (text "created", number (unwrap_or b.created b.ctx.fallback_created))
        ∷ (text "model", string (unwrap_or b.model b.ctx.fallback_model))
        ∷ (text "choices", array (from_items (choice_entry ∷ [])))
        ∷ (text "usage", unwrap_or b.usage null)
        ∷ []))
