-- ===== src/Stream/Completion/Tests.antt =====
-- The buffered completion on concrete events and chunks, and its theorems there.
use venice_e2ee_proxy.Base.{
  ◌≡◌, refl, List, [], ◌∷◌, ◌++◌, Option, none, some, ok, err, Result, true,
}
use venice_e2ee_proxy.Text.{Text, text, text_eq, is_whitespace}
use venice_e2ee_proxy.Text.Trim.{trim, trim_start}
use venice_e2ee_proxy.Dict
use venice_e2ee_proxy.Json.{Value, pos_int, object, array, string, from_entries, from_items}
use venice_e2ee_proxy.Stream.{StreamLib, RawSseEvent, decryption, decrypt, decrypt_field}
use venice_e2ee_proxy.Stream.Chunk.{ChunkContext}
use venice_e2ee_proxy.Stream.Classify.{
  classify_upstream_event, classify_parsed, classify_chunk, by_choices, is_error_event, read_choice,
  read_index, normalized_choice_index, normalized_finish_reason, text_field,
  encrypted_delta_text_field, string_field, integer_field,
}
use venice_e2ee_proxy.Stream.Completion.{
  OpenAiChatCompletionBuffer, new_buffer, handle_event, handle_kind, handle_choice_chunk,
  handle_done, same_index, append_choice, record_metadata, close, latest,
}
use venice_e2ee_proxy.Stream.Completion.Loop.{handle_all}
use venice_e2ee_proxy.Stream.Completion.Content.{handle_all-content, content_before_end}
use venice_e2ee_proxy.Stream.Completion.FailClosed.{handle_all-new_buffer, encrypted_before_end}

-- A parser that reads one chunk, and a codec that demands encrypted content and whose cipher texts
-- are the texts.
abbrev chunk : Value
chunk = object (
    from_entries (
      (
        text "choices",
        array (
            from_items (
              object (
                from_entries (
                  (text "delta", object (from_entries ((text "content", string (text "Hi")) ∷ [])))
                  ∷ []))
              ∷ [])),
      )
      ∷ []))

abbrev demand : Option Text → Result (Unit {0}) (Option Text)
demand none = err tt
demand (some s) = ok (some s)

abbrev lib : StreamLib
lib = record {
  CodecError = Unit {0};
  ToolError = Unit {0};
  from_str = λ s. some chunk;
  decrypt_response_content = demand;
}

abbrev ctx : ChunkContext
ctx = record {
  fallback_id = text "chatcmpl-local-1";
  fallback_created = pos_int 0;
  fallback_model = text "glm";
}

abbrev event : Text → RawSseEvent
event s = record { event = none; data_text = s }

abbrev events : List RawSseEvent
events = event (text "1") ∷ event (text "2") ∷ event (text "[DONE]") ∷ event (text "3") ∷ []

abbrev answer : OpenAiChatCompletionBuffer
answer = record (new_buffer ctx) {
  choice_index = some 0;
  saw_encrypted_response_field = true;
  content = text "HiHi";
  finish_reason = some (string (text "stop"));
}

answered : handle_all lib (new_buffer ctx) events ≡ ok ((true, answer))
unfolding handle_all handle_event handle_kind handle_choice_chunk handle_done same_index
    append_choice record_metadata close latest new_buffer classify_upstream_event classify_parsed
    classify_chunk by_choices is_error_event read_choice read_index normalized_choice_index
    normalized_finish_reason text_field encrypted_delta_text_field string_field integer_field
    decrypt_field decrypt Dict.get text_eq trim trim_start is_whitespace
answered = refl

handle_all-content_example :
    answer.content ≡ (new_buffer ctx).content ++ content_before_end lib events
handle_all-content_example = handle_all-content lib events (new_buffer ctx) (true, answer) answered

handle_all-new_buffer_example : encrypted_before_end lib events ≡ true
unfolding decrypt
handle_all-new_buffer_example =
    handle_all-new_buffer lib (decryption tt) ctx events answer refl answered
