-- ===== src/Stream/Tool/Tests.antt =====
-- The tool-emulated transformer on concrete pieces of text, and its theorems there.
use venice_e2ee_proxy.Base.{
  ◌≡◌, refl, List, [], ◌∷◌, ◌++◌, some, none, ok, true, false, arith, length, if◌then◌else◌, ◌≤◌,
}
use venice_e2ee_proxy.Text.{Text, text, len_utf8}
use venice_e2ee_proxy.Text.Search.{find}
use venice_e2ee_proxy.Text.Bytes.{byte_len}
use venice_e2ee_proxy.Json.{null, pos_int, Value, object, array, string, from_entries, from_items}
use venice_e2ee_proxy.Dict
use venice_e2ee_proxy.Text.{text_eq, is_whitespace}
use venice_e2ee_proxy.Text.Trim.{trim, trim_start}
use venice_e2ee_proxy.Stream.{RawSseEvent, decrypt, decrypt_field}
use venice_e2ee_proxy.Stream.Chunk.{chunk_with_choice}
use venice_e2ee_proxy.Stream.Classify.{
  classify_upstream_event, classify_parsed, classify_chunk, by_choices, is_error_event, read_choice,
  read_index, normalized_choice_index, normalized_finish_reason, text_field,
  encrypted_delta_text_field,
}
use venice_e2ee_proxy.Stream.Plain.{empty_delta}
use venice_e2ee_proxy.Stream.Tool.Handler.{
  handle_event, handle_kind, handle_choice_chunk, finish_stream, then_push, push_reasoning,
  push_content, push_finish,
}
use venice_e2ee_proxy.Stream.Tool.{
  delta_chunk, push_decrypted_content, start_buffering, stream_pending, streamable_pending_text,
  split_within, finish_buffered_content, flush, final_reason, text_chunk_if_not_empty,
  text_field_chunk,
}
use venice_e2ee_proxy.Stream.Tool.{
  ensure_tool_buffer_within_limit, ensure_pending_text_within_limit,
}
use venice_e2ee_proxy.Stream.Tool.Suppressed.{pushes-suppressed}
use venice_e2ee_proxy.Stream.Roles.{count, finishes, has_role}
use venice_e2ee_proxy.Stream.Tool.Whole.{handle_events, handle_events-new_transformer}
use venice_e2ee_proxy.Tools.{ToolEmulationContext}
use venice_e2ee_proxy.Stream.{StreamLib, StreamOutput}
use venice_e2ee_proxy.Stream.Chunk.{ChunkContext}
use venice_e2ee_proxy.Stream.Tool.{Transformer, new_transformer}
use venice_e2ee_proxy.Stream.Tool.Streamed.{marker, streamed_contents, held}
use venice_e2ee_proxy.Stream.Tool.Pushes.{Piece, contents, pushes, pushes-new_transformer}

-- A codec whose cipher texts are the texts, and no parser.
abbrev lib : StreamLib
lib = record {
  CodecError = Unit {0};
  ToolError = Unit {0};
  from_str = λ s. none;
  decrypt_response_content = λ content. ok content;
}

abbrev tools : ToolEmulationContext (Unit {0})
tools = record {
  tool_call_max_bytes = 100;
  max_retries = 1;
  require_tool_call = false;
  parse_tool_calls = λ s. ok [];
}

abbrev ctx : ChunkContext
ctx = record {
  fallback_id = text "chatcmpl-local-1";
  fallback_created = pos_int 0;
  fallback_model = text "glm";
}

abbrev piece : Text → Piece
piece s = record { upstream = null; index = 0; content = s }

abbrev pieces : List Piece
pieces = piece (text "Let me look that up. <tool") ∷ piece (text "_call>{}") ∷ []

pushes-new_transformer_example :
    (t : Transformer) × (outputs : List StreamOutput) × (pushes lib tools
        (new_transformer ctx true false)
        pieces
      ≡ ok (t, outputs))
    × (streamed_contents outputs ++ held t ≡ contents pieces)
    × (find marker (contents pieces)
        ≡ (if t.buffering_tool_call then some (length (streamed_contents outputs)) else none))
unfolding contents byte_len len_utf8
pushes-new_transformer_example = pushes-new_transformer lib tools ctx true pieces (omega arith)

-- A parser that reads one chunk with a role-less delta.
abbrev chunk : Value
chunk = object (
    from_entries (
      (
        text "choices",
        array (
            from_items (
              object (
                from_entries (
                  (
                    text "delta",
                    object (from_entries ((text "content", string (text "Good morning")) ∷ [])),
                  )
                  ∷ []))
              ∷ [])),
      )
      ∷ []))

abbrev chunk_lib : StreamLib
chunk_lib = record lib { from_str = λ s. some chunk }

abbrev event : Text → RawSseEvent
event s = record { event = none; data_text = s }

abbrev start : Transformer
start = new_transformer ctx true false

-- The upstream chunk arrives, then the end of the stream.
abbrev open_stream : Transformer
open_stream = record start { sent_role = true; pending_text = text "od morning" }

abbrev closed_stream : Transformer
closed_stream = record open_stream { pending_text = []; sent_final_finish = true }

abbrev first_outputs : List StreamOutput
first_outputs = (delta_chunk start chunk 0 ((text "content", string (text "Go")) ∷ [])).1 ∷ []

abbrev last_outputs : List StreamOutput
last_outputs =
    (delta_chunk open_stream null 0 ((text "content", string (text "od morning")) ∷ [])).1
    ∷ StreamOutput.json (chunk_with_choice ctx null 0 empty_delta (string (text "stop")))
    ∷ StreamOutput.done
    ∷ []

streams :
    handle_events chunk_lib tools start (event (text "1") ∷ []) ≡ ok (open_stream, first_outputs)
unfolding handle_events handle_event handle_kind handle_choice_chunk finish_stream then_push
    push_reasoning push_content push_finish push_decrypted_content start_buffering stream_pending
    streamable_pending_text split_within finish_buffered_content flush final_reason
    text_chunk_if_not_empty text_field_chunk delta_chunk new_transformer classify_upstream_event
    classify_parsed classify_chunk by_choices is_error_event read_choice read_index
    normalized_choice_index normalized_finish_reason text_field encrypted_delta_text_field
    decrypt_field decrypt Dict.get text_eq trim trim_start is_whitespace find byte_len len_utf8
streams = refl

ends :
    handle_event chunk_lib tools open_stream (event (text "[DONE]"))
    ≡ ok (closed_stream, last_outputs)
unfolding handle_events handle_event handle_kind handle_choice_chunk finish_stream then_push
    push_reasoning push_content push_finish push_decrypted_content start_buffering stream_pending
    streamable_pending_text split_within finish_buffered_content flush final_reason
    text_chunk_if_not_empty text_field_chunk delta_chunk new_transformer classify_upstream_event
    classify_parsed classify_chunk by_choices is_error_event read_choice read_index
    normalized_choice_index normalized_finish_reason text_field encrypted_delta_text_field
    decrypt_field decrypt Dict.get text_eq trim trim_start is_whitespace find byte_len len_utf8
ends = refl

handle_events-new_transformer_example :
    (count finishes (first_outputs ++ last_outputs) ≡ 1)
    × (count has_role (first_outputs ++ last_outputs) ≤ 1)
unfolding classify_upstream_event is_error_event trim trim_start is_whitespace text_eq
handle_events-new_transformer_example =
    handle_events-new_transformer chunk_lib tools ctx true false (event (text "1") ∷ [])
      (event (text "[DONE]")) open_stream closed_stream first_outputs last_outputs streams refl ends

abbrev corrected : Transformer
corrected = record (new_transformer ctx true true) {
  tool_buffer = text "<tool_call>{}";
  buffering_tool_call = true;
}

corrects : pushes lib tools (new_transformer ctx true true) pieces ≡ ok (corrected, [])
unfolding pushes push_decrypted_content start_buffering stream_pending new_transformer find byte_len
    len_utf8 ensure_tool_buffer_within_limit ensure_pending_text_within_limit
corrects = refl

pushes-suppressed_example : ◌≡◌ {A = List StreamOutput} [] []
pushes-suppressed_example = pushes-suppressed lib tools ctx true pieces corrected [] corrects
