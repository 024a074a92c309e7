-- ===== src/Stream/Tool/Handler.antt =====
-- src/http.rs: the handlers of the tool-emulated transformer's upstream events.
use venice_e2ee_proxy.Base.{
  ℕ, Option, none, some, Result, ok, ◌>>=◌, map_err, List, [], ◌∷◌, ◌++◌, if◌then◌else◌, ◌||◌,
}
use venice_e2ee_proxy.Text.{Text, text}
use venice_e2ee_proxy.Json.{Value, string, null, is_null}
use venice_e2ee_proxy.Tools.{ToolEmulationContext}
use venice_e2ee_proxy.Stream.{
  StreamLib, StreamError, RawSseEvent, StreamOutput, malformed_event, decrypt_field,
}
use venice_e2ee_proxy.Stream.Classify.{
  UpstreamEventKind, done, usage, choice, classify_upstream_event, read_choice, read_index,
  read_usage,
}
use venice_e2ee_proxy.Stream.Chunk.{usage_chunk}
use venice_e2ee_proxy.Stream.Tool.{
  Transformer, text_field_chunk, push_decrypted_content, finish_buffered_content,
}

-- The decrypted reasoning is streamed, unless the stream is finished or output is suppressed.
unfoldable pub push_reasoning :
    Transformer → Value → ℕ → Option Text → Transformer × List StreamOutput
push_reasoning t value index none = (t, [])
push_reasoning t value index (some content) =
    let (t', chunk) = text_field_chunk t value index (text "reasoning_content") content in
    if t.sent_final_finish || t.suppress_normal_output then (t, []) else (t', chunk ∷ [])

module _ (lib : StreamLib) (tools : ToolEmulationContext lib.ToolError) where
  abbrev pub Handled : Type 0
  Handled = Result (StreamError lib) (Transformer × List StreamOutput)

  unfoldable pub push_content : Transformer → Value → ℕ → Option Text → Handled
  push_content t value index none = ok (t, [])
  push_content t value index (some content) =
      if t.sent_final_finish
      then ok (t, [])
      else push_decrypted_content lib tools t value index content

  unfoldable pub push_finish : Transformer → Value → ℕ → Value → Handled
  push_finish t value index finish_reason =
      if is_null finish_reason || t.sent_final_finish
      then ok (t, [])
      else finish_buffered_content lib tools t value index finish_reason

  -- One part of a handler after another, the outputs in order.
  unfoldable pub then_push : Transformer × List StreamOutput → (Transformer → Handled) → Handled
  then_push (t, outputs) next =
      next t >>= λ more. let (t', outputs') = more in ok ((t', outputs ++ outputs'))

  -- The reasoning is decrypted and pushed first, then the content, then the finish reason.
  unfoldable pub handle_choice_chunk : Transformer → Value → Value → Handled
  handle_choice_chunk t value choice_value = do
    index ← map_err malformed_event (read_index choice_value)
    c ← map_err malformed_event (read_choice choice_value)
    reasoning ← decrypt_field lib c.reasoning_content
    content ← decrypt_field lib c.content
    pushed ←
        then_push (push_reasoning t value index reasoning)
          (λ t'. push_content t' value index content)
    then_push pushed (λ t'. push_finish t' value index c.finish_reason)

  unfoldable pub handle_usage_chunk : Transformer → Value → Handled
  handle_usage_chunk t value = do
    u ← map_err malformed_event (read_usage value)
    ok (
        (
          t,
          if t.include_usage_requested
              then StreamOutput.json (usage_chunk t.ctx value u) ∷ []
              else [],
        ))

  unfoldable pub finish_stream : Transformer → Handled
  finish_stream t =
      let last = λ (t' : Transformer). ok ((t', StreamOutput.done ∷ [])) in
      push_finish t null 0 (string (text "stop")) >>= λ flushed. then_push flushed last

  unfoldable pub handle_kind : Transformer → UpstreamEventKind → Handled
  handle_kind t done = finish_stream t
  handle_kind t (usage value) = handle_usage_chunk t value
  handle_kind t (choice value c) = handle_choice_chunk t value c

  unfoldable pub handle_event : Transformer → RawSseEvent → Handled
  handle_event t event = do kind ← classify_upstream_event lib event; handle_kind t kind
