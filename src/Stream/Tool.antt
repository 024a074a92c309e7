-- ===== src/Stream/Tool.antt =====
-- src/http.rs: `OpenAiToolEmulatedChatStreamTransformer`, which streams plain text up to the first
-- tool-call marker and holds back the rest until it is parsed as a whole. A handler returns the
-- transformer after it and the outputs; after an error the code drops the transformer.
pub mod Handler
pub mod Streamed
pub mod Push
pub mod Pushes
pub mod Outputs
pub mod Once
pub mod Whole
pub mod Suppressed
mod Tests
use venice_e2ee_proxy.Base.{
  ℕ, suc, ◌+◌, ◌-◌, Bool, true, false, not, Option, none, some, Result, ok, err, ◌>>=◌, map_err,
  unwrap_or, List, [], ◌∷◌, ◌++◌, if◌then◌else◌, ◌||◌, ◌&&◌, ltb, leb, take, drop, ensure, ◌>>◌,
}
use venice_e2ee_proxy.Text.{Text, text, is_empty, len_utf8}
use venice_e2ee_proxy.Text.Search.{find}
use venice_e2ee_proxy.Text.Bytes.{byte_len}
use venice_e2ee_proxy.Json.{
  Value, string, null, object, array, number, pos_int, from_entries, from_items, is_null,
}
use venice_e2ee_proxy.Tools.{
  ToolEmulationContext, ValidatedToolCall, to_openai_value, classify_assistant_output,
  ToolOutputClassification, normal_text, tool_calls, invalid_tool_call,
}
use venice_e2ee_proxy.Stream.{
  StreamLib, StreamError, RawSseEvent, StreamOutput, malformed_event, decrypt_field,
  tool_output_too_large, parsing_failed, no_tool_call, text_too_large,
}
use venice_e2ee_proxy.Stream
use venice_e2ee_proxy.Stream.Classify.{
  UpstreamEventKind, done, usage, choice, classify_upstream_event, Choice, read_choice, read_index,
  read_usage,
}
use venice_e2ee_proxy.Stream.Chunk.{ChunkContext, chunk_with_choice, usage_chunk}
use venice_e2ee_proxy.Stream.Plain.{role_entry, empty_delta}

abbrev pub tool_call_start_marker : Text
tool_call_start_marker = text "<tool_call>"

-- `OpenAiToolEmulatedChatStreamTransformer`, less its tool context.
pub record Transformer : Type 0 where
  pub ctx : ChunkContext
  pub include_usage_requested : Bool
  pub sent_role : Bool
  pub sent_final_finish : Bool
  pub pending_text : Text
  pub tool_buffer : Text
  pub buffering_tool_call : Bool
  pub emitted_tool_calls : Bool
  pub suppress_normal_output : Bool

unfoldable pub new_transformer : ChunkContext → Bool → Bool → Transformer
new_transformer ctx include_usage suppress = record {
  ctx = ctx;
  include_usage_requested = include_usage;
  sent_role = false;
  sent_final_finish = false;
  pending_text = [];
  tool_buffer = [];
  buffering_tool_call = false;
  emitted_tool_calls = false;
  suppress_normal_output = suppress;
}

-- A chunk with a delta of these entries, the role before them if it was not sent yet.
unfoldable pub delta_chunk :
    Transformer → Value → ℕ → List (Text × Value) → Transformer × StreamOutput
delta_chunk t upstream index delta = (
  record t { sent_role = true },
  StreamOutput.json (
      chunk_with_choice t.ctx upstream index
        (object (from_entries (role_entry t.sent_role ++ delta))) null),
)

unfoldable pub text_field_chunk : Transformer → Value → ℕ → Text → Text → Transformer × StreamOutput
text_field_chunk t upstream index name content =
    delta_chunk t upstream index ((name, string content) ∷ [])

unfoldable pub text_chunk_if_not_empty :
    Transformer → Value → ℕ → Text → Transformer × List StreamOutput
text_chunk_if_not_empty t upstream index content =
    let (t', chunk) = text_field_chunk t upstream index (text "content") content in
    if is_empty content then (t, []) else (t', chunk ∷ [])

unfoldable pub full_tool_call_chunk :
    Transformer → Value → ℕ → ℕ → ValidatedToolCall → Transformer × StreamOutput
full_tool_call_chunk t upstream index tool_index call =
    let entries = to_openai_value call ++ (text "index", number (pos_int tool_index)) ∷ [] in
    delta_chunk t upstream index
      ((text "tool_calls", array (from_items (object (from_entries entries) ∷ []))) ∷ [])

-- The chunks of the calls, numbered on from `tool_index`.
unfoldable pub tool_call_chunks :
    Transformer → Value → ℕ → ℕ → List ValidatedToolCall → Transformer × List StreamOutput
tool_call_chunks t upstream index tool_index [] = (t, [])
tool_call_chunks t upstream index tool_index (call ∷ calls) =
    let (t', chunk) = full_tool_call_chunk t upstream index tool_index call in
    let (t'', chunks) = tool_call_chunks t' upstream index (suc tool_index) calls in
    (t'', chunk ∷ chunks)

-- The longest beginning of whole characters that has at most so many bytes, and the rest.
unfoldable pub split_within : ℕ → Text → Text × Text
split_within n [] = ([], [])
split_within n (c ∷ s) =
    let (before, after) = split_within (n - len_utf8 c) s in
    if leb (len_utf8 c) n then (c ∷ before, after) else ([], c ∷ s)

-- The text cut at `streamable_pending_text_len`: what can be streamed, and what is held back.
unfoldable pub streamable_pending_text : Text → Text × Text
streamable_pending_text pending =
    let protected = byte_len tool_call_start_marker - 1 in
    if leb (byte_len pending) protected
    then ([], pending)
    else split_within (byte_len pending - protected) pending

module _ (lib : StreamLib) (tools : ToolEmulationContext lib.ToolError) where
  unfoldable pub ensure_tool_buffer_within_limit : Transformer → Result (StreamError lib) (Unit {0})
  ensure_tool_buffer_within_limit t =
      ensure (leb (byte_len t.tool_buffer) tools.tool_call_max_bytes)
        (malformed_event (tool_output_too_large tools.tool_call_max_bytes))

  unfoldable pub ensure_pending_text_within_limit :
      Transformer → Result (StreamError lib) (Unit {0})
  ensure_pending_text_within_limit t =
      ensure (leb (byte_len t.pending_text) tools.tool_call_max_bytes)
        (Stream.invalid_tool_call (text_too_large tools.tool_call_max_bytes) t.pending_text)

  -- The marker was found: what stands before it is streamed, the rest is the tool buffer.
  unfoldable pub start_buffering :
      Transformer
      → Value
      → ℕ
      → Text
      → ℕ
      → Result (StreamError lib) (Transformer × List StreamOutput)
  start_buffering t upstream index pending marker_index =
      let t' = record t {
        tool_buffer = drop marker_index pending;
        pending_text = [];
        buffering_tool_call = true;
      } in
      ensure_tool_buffer_within_limit t'
      >> ok (
          if t.suppress_normal_output
          then (t', [])
          else text_chunk_if_not_empty t' upstream index (take marker_index pending))

  -- No marker yet: what cannot be the beginning of one is streamed.
  unfoldable pub stream_pending :
      Transformer → Value → ℕ → Text → Result (StreamError lib) (Transformer × List StreamOutput)
  stream_pending t upstream index pending =
      let held = record t { pending_text = pending } in
      let (streamed, kept) = streamable_pending_text pending in
      if t.suppress_normal_output
      then (ensure_pending_text_within_limit held >> ok (held, []))
      else ok (text_chunk_if_not_empty (record t { pending_text = kept }) upstream index streamed)

  unfoldable pub push_decrypted_content :
      Transformer → Value → ℕ → Text → Result (StreamError lib) (Transformer × List StreamOutput)
  push_decrypted_content t upstream index content =
      let pending = t.pending_text ++ content in
      let buffered = record t { tool_buffer = t.tool_buffer ++ content } in
      if t.buffering_tool_call
      then (ensure_tool_buffer_within_limit buffered >> ok (buffered, []))
      else elim (find tool_call_start_marker pending) [
        | some marker_index ↦ start_buffering t upstream index pending marker_index
        | none ↦ stream_pending t upstream index pending
      ]

  unfoldable pub classified_chunks :
      Transformer
      → Value
      → ℕ
      → ToolOutputClassification lib.ToolError
      → Result (StreamError lib) (Transformer × List StreamOutput)
  classified_chunks t upstream index (tool_calls calls) =
      ok (tool_call_chunks (record t { emitted_tool_calls = true }) upstream index 0 calls)
  classified_chunks t upstream index normal_text = ok (
      text_chunk_if_not_empty (record t { tool_buffer = []; buffering_tool_call = false }) upstream
        index t.tool_buffer)
  classified_chunks t upstream index (invalid_tool_call error output) =
      err (Stream.invalid_tool_call (parsing_failed error) output)

  unfoldable pub buffered_tool_call_chunks :
      Transformer → Value → ℕ → Result (StreamError lib) (Transformer × List StreamOutput)
  buffered_tool_call_chunks t upstream index =
      ensure_tool_buffer_within_limit t
      >> classified_chunks t upstream index (classify_assistant_output tools t.tool_buffer)

  -- What is flushed before the finish chunk.
  unfoldable pub flush :
      Transformer → Value → ℕ → Result (StreamError lib) (Transformer × List StreamOutput)
  flush t upstream index =
      let flushed = record t { pending_text = [] } in
      if t.buffering_tool_call
      then buffered_tool_call_chunks t upstream index
      else if t.suppress_normal_output
      then err (Stream.invalid_tool_call no_tool_call t.pending_text)
      else ok (
          if is_empty t.pending_text
          then (t, [])
          else text_chunk_if_not_empty flushed upstream index t.pending_text)

  unfoldable pub final_reason : Transformer → Value → Value
  final_reason t finish_reason =
      if t.emitted_tool_calls then string (text "tool_calls") else finish_reason

  unfoldable pub finish_buffered_content :
      Transformer → Value → ℕ → Value → Result (StreamError lib) (Transformer × List StreamOutput)
  finish_buffered_content t upstream index finish_reason = flush t upstream index >>= λ flushed.
      let (t', outputs) = flushed in
      let last =
        chunk_with_choice t'.ctx upstream index empty_delta (final_reason t' finish_reason) in
      ok ((record t' { sent_final_finish = true }, outputs ++ StreamOutput.json last ∷ []))
