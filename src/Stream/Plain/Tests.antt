-- ===== src/Stream/Plain/Tests.antt =====
-- The plain transformer on concrete events, and its theorem there.
use venice_e2ee_proxy.Base.{◌≤◌, ◌≡◌, refl, List, [], ◌∷◌, ◌++◌, some, none, ok, true, false}
use venice_e2ee_proxy.Text.{Text, text, text_eq, is_whitespace}
use venice_e2ee_proxy.Text.Trim.{trim, trim_start}
use venice_e2ee_proxy.Dict
use venice_e2ee_proxy.Json.{Value, null, pos_int, object, array, string, from_entries, from_items}
use venice_e2ee_proxy.Stream.{StreamLib, StreamOutput, RawSseEvent, decrypt, decrypt_field}
use venice_e2ee_proxy.Stream.Chunk.{ChunkContext, chunk_with_choice}
use venice_e2ee_proxy.Stream.Classify.{
  classify_upstream_event, classify_parsed, classify_chunk, by_choices, is_error_event, read_choice,
  normalized_choice_index, normalized_finish_reason, text_field, encrypted_delta_text_field,
}
use venice_e2ee_proxy.Stream.Roles.{count, finishes, has_role}
use venice_e2ee_proxy.Stream.Plain.{
  OpenAiChatStreamTransformer, new_transformer, empty_delta, role_entry, text_entry, text_delta,
  finish_outputs, text_outputs, finish_only, decrypted_choice, handle_choice_chunk, handle_kind,
  handle_event,
}
use venice_e2ee_proxy.Stream.Plain.Whole.{handle_events, handle_events_once}

-- A parser that reads one chunk, and a codec whose cipher texts are the texts.
abbrev chunk : Value
chunk = object (
    from_entries (
      (
        text "choices",
        array (
            from_items (
              object (
                from_entries (
                  (text "finish_reason", string (text "length"))
                  ∷ (
                    text "delta",
                    object (from_entries ((text "content", string (text "Hi")) ∷ [])),
                  )
                  ∷ []))
              ∷ [])),
      )
      ∷ []))

abbrev lib : StreamLib
lib = record {
  CodecError = Unit {0};
  ToolError = Unit {0};
  from_str = λ s. some chunk;
  decrypt_response_content = λ content. ok content;
}

abbrev ctx : ChunkContext
ctx = record {
  fallback_id = text "chatcmpl-local-1";
  fallback_created = pos_int 0;
  fallback_model = text "glm";
}

abbrev event : Text → RawSseEvent
event s = record { event = none; data_text = s }

abbrev start : OpenAiChatStreamTransformer
start = new_transformer ctx true

abbrev after_text : OpenAiChatStreamTransformer
after_text = record start { sent_role = true; sent_final_finish = true }

abbrev outputs : List StreamOutput
outputs =
    StreamOutput.json
      (chunk_with_choice ctx chunk 0 (text_delta false (some (text "Hi")) none) null)
    ∷ StreamOutput.json (chunk_with_choice ctx chunk 0 empty_delta (string (text "length")))
    ∷ []

streams : handle_events lib start (event (text "1") ∷ []) ≡ ok (after_text, outputs)
unfolding handle_events handle_event handle_kind handle_choice_chunk finish_only decrypted_choice
    text_outputs finish_outputs text_delta text_entry role_entry new_transformer
    classify_upstream_event classify_parsed classify_chunk by_choices is_error_event read_choice
    normalized_choice_index normalized_finish_reason text_field encrypted_delta_text_field
    decrypt_field decrypt Dict.get text_eq trim trim_start is_whitespace
streams = refl

ends : handle_event lib after_text (event (text "[DONE]")) ≡ ok (after_text, StreamOutput.done ∷ [])
unfolding handle_events handle_event handle_kind handle_choice_chunk finish_only decrypted_choice
    text_outputs finish_outputs text_delta text_entry role_entry new_transformer
    classify_upstream_event classify_parsed classify_chunk by_choices is_error_event read_choice
    normalized_choice_index normalized_finish_reason text_field encrypted_delta_text_field
    decrypt_field decrypt Dict.get text_eq trim trim_start is_whitespace
ends = refl

handle_events_once_example :
    (1 ≤ count finishes (outputs ++ StreamOutput.done ∷ []))
    × (count has_role (outputs ++ StreamOutput.done ∷ []) ≤ 1)
unfolding classify_upstream_event is_error_event trim trim_start is_whitespace text_eq
handle_events_once_example =
    handle_events_once lib ctx true (event (text "1") ∷ []) (event (text "[DONE]")) after_text
      after_text outputs (StreamOutput.done ∷ []) streams refl ends
