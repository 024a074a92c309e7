-- ===== src/E2ee/Completion/Tests.antt =====
-- The codec under the stream handlers on one encrypted event and the end of the stream.
use venice_e2ee_proxy.Base.{◌≡◌, refl, true, Option, none, some, ok, List, [], ◌∷◌}
use venice_e2ee_proxy.Text.{Text, text, text_eq, is_whitespace}
use venice_e2ee_proxy.Text.Trim.{trim, trim_start}
use venice_e2ee_proxy.Dict
use venice_e2ee_proxy.Json.{Value, null, pos_int, object, array, string, from_entries, from_items}
use venice_e2ee_proxy.Stream.{RawSseEvent}
use venice_e2ee_proxy.Stream.Chunk.{ChunkContext}
use venice_e2ee_proxy.Stream.Classify.{
  Choice, done, classify_upstream_event, classify_parsed, classify_chunk, by_choices,
  is_error_event, read_choice, read_index, normalized_choice_index, normalized_finish_reason,
  text_field, encrypted_delta_text_field,
}
use venice_e2ee_proxy.Stream.Completion.{OpenAiChatCompletionBuffer, new_buffer}
use venice_e2ee_proxy.Stream.Completion.Loop.{handle_all}
use venice_e2ee_proxy.E2ee.Sample.{codec, nonce, nonce-IsByte, hex_encode, crates, crates_laws}
use venice_e2ee_proxy.E2ee.Completion.{
  stream_lib, stream, Carries, ends, next, concat, handle_all-CarriesAll,
}
use venice_e2ee_proxy.E2ee.Tests.{message, payload, scalars, encrypted}

abbrev choice_value : Value
choice_value = object (
    from_entries
      ((text "delta", object (from_entries ((text "content", string payload.as_hex) ∷ []))) ∷ []))

abbrev chunk : Value
chunk = object (from_entries ((text "choices", array (from_items (choice_value ∷ []))) ∷ []))

abbrev from_str : Text → Option Value
from_str s = some chunk

abbrev ctx : ChunkContext
ctx = record {
  fallback_id = text "chatcmpl-local-1";
  fallback_created = pos_int 0;
  fallback_model = text "glm";
}

abbrev event : Text → RawSseEvent
event s = record { event = none; data_text = s }

abbrev events : List RawSseEvent
events = event (text "{}") ∷ event (text "[DONE]") ∷ []

abbrev read : Choice
read = record {
  index = none;
  finish_reason = null;
  content = some payload.as_hex;
  reasoning_content = none;
}

carries : Carries crates crates_laws codec true (Unit {0}) from_str (event (text "{}")) message
unfolding Carries classify_upstream_event classify_parsed classify_chunk by_choices is_error_event
    read_choice read_index normalized_choice_index normalized_finish_reason text_field
    encrypted_delta_text_field text_eq trim trim_start is_whitespace Dict.get stream_lib hex_encode
carries = (
  chunk, choice_value, read, true, nonce, payload, refl, refl, refl, refl, refl, refl, nonce-IsByte,
  scalars, encrypted,
)

at_end :
    classify_upstream_event
      (stream crates crates_laws codec true (Unit {0}) from_str)
      (event (text "[DONE]"))
    ≡ ok done
unfolding classify_upstream_event is_error_event text_eq trim trim_start is_whitespace
at_end = refl

handle_all-CarriesAll_example :
    (b : OpenAiChatCompletionBuffer) × (handle_all
        (stream crates crates_laws codec true (Unit {0}) from_str)
        (new_buffer ctx)
        events
      ≡ ok ((true, b)))
    × (b.content ≡ concat crates crates_laws codec true (Unit {0}) from_str (message ∷ []))
handle_all-CarriesAll_example =
    handle_all-CarriesAll crates crates_laws codec true (Unit {0}) from_str ctx events message [] (
      next (event (text "{}")) (event (text "[DONE]") ∷ []) message [] carries
        (ends (event (text "[DONE]")) [] at_end))
