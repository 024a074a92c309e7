-- ===== src/Stream/Tool/Once.antt =====
-- The role and the finish reason over the parts of the tool-emulated transformer.
use venice_e2ee_proxy.Base.{
  ℕ, ◌≡◌, refl, sym, ◌∙◌, subst, Bool, true, false, List, [], ◌∷◌, ◌++◌, Option-cases, arith,
  if◌then◌else◌, inl, inr, Bool-cases, suc, take, drop,
}
use venice_e2ee_proxy.Text.{Text, is_empty}
use venice_e2ee_proxy.Text.Search.{find}
use venice_e2ee_proxy.Json.{Value, is_null}
use venice_e2ee_proxy.Tools.{
  ToolEmulationContext, ToolOutputClassification, normal_text, tool_calls, invalid_tool_call,
  classify_assistant_output, ValidatedToolCall,
}
use venice_e2ee_proxy.Stream.{StreamLib, StreamOutput}
use venice_e2ee_proxy.Stream.Tool.{
  Transformer, delta_chunk, text_field_chunk, text_chunk_if_not_empty, tool_call_chunks,
  tool_call_start_marker, streamable_pending_text, start_buffering, stream_pending,
  push_decrypted_content, classified_chunks, buffered_tool_call_chunks, flush, final_reason,
  finish_buffered_content, full_tool_call_chunk, ensure_tool_buffer_within_limit,
  ensure_pending_text_within_limit,
}
use venice_e2ee_proxy.Stream.Sends.{Sends, Sends-bind, Sends-then, Sends-if, Sends-ok}
use venice_e2ee_proxy.Stream.Tool.Outputs.{
  Once, Once-nothing, Once-append, text_chunk_if_not_empty-Once, tool_call_chunks-Once,
  finish_chunk-Once,
}

abbrev pub Sent : Type 0
Sent = Transformer × List StreamOutput

pub either : (P : Sent → Type 0) (b : Bool) (x y : Sent) → P x → P y → P (if b then x else y)
either P true x y h k = h
either P false x y h k = k

-- Sent once, and nothing of the finish chunk yet.
unfoldable Unfinished : Transformer → Sent → Type 0
Unfinished t (t', outputs) =
    Once t.sent_role t.sent_final_finish (t', outputs)
    × (t'.sent_final_finish ≡ t.sent_final_finish)

text_chunk-Unfinished :
    (t : Transformer) (upstream : Value) (index : ℕ) (content : Text)
    → Unfinished t (text_chunk_if_not_empty t upstream index content)
unfolding Unfinished text_chunk_if_not_empty text_field_chunk delta_chunk
text_chunk-Unfinished t upstream index [] = (Once-nothing t, refl)
text_chunk-Unfinished t upstream index (c ∷ content) =
    (text_chunk_if_not_empty-Once t upstream index (c ∷ content), refl)

tool_call_chunks-same :
    (t : Transformer) (upstream : Value) (index n : ℕ) (calls : List ValidatedToolCall)
    → (tool_call_chunks t upstream index n calls).0.sent_final_finish ≡ t.sent_final_finish
unfolding tool_call_chunks full_tool_call_chunk delta_chunk
tool_call_chunks-same t upstream index n [] = refl
tool_call_chunks-same t upstream index n (call ∷ calls) =
    tool_call_chunks-same (full_tool_call_chunk t upstream index n call).0 upstream index (suc n)
      calls

module _ (lib : StreamLib) (tools : ToolEmulationContext lib.ToolError) where
  start_buffering-Once :
      (t : Transformer) (upstream : Value) (index : ℕ) (pending : Text) (i : ℕ)
      → Sends
          (Once t.sent_role t.sent_final_finish)
          (start_buffering lib tools t upstream index pending i)
  unfolding start_buffering Sends
  start_buffering-Once t upstream index pending i =
      let sent = Once t.sent_role t.sent_final_finish in
      let t' = record t {
        tool_buffer = drop i pending;
        pending_text = [];
        buffering_tool_call = true;
      } in
      Sends-then sent (ensure_tool_buffer_within_limit lib tools t') _ (
        either sent t.suppress_normal_output _ _ (Once-nothing t')
          (text_chunk_if_not_empty-Once t' upstream index (take i pending)))

  stream_pending-Once :
      (t : Transformer) (upstream : Value) (index : ℕ) (pending : Text)
      → Sends
          (Once t.sent_role t.sent_final_finish)
          (stream_pending lib tools t upstream index pending)
  unfolding stream_pending Sends
  stream_pending-Once t upstream index pending =
      let sent = Once t.sent_role t.sent_final_finish in
      let held = record t { pending_text = pending } in
      let (now, kept) = streamable_pending_text pending in
      Sends-if sent t.suppress_normal_output _ _
        (λ e.
          Sends-then sent (ensure_pending_text_within_limit lib tools held) _ (Once-nothing held))
        (λ e. text_chunk_if_not_empty-Once (record t { pending_text = kept }) upstream index now)

  pub push_decrypted_content-Once :
      (t : Transformer) (upstream : Value) (index : ℕ) (content : Text)
      → Sends
          (Once t.sent_role t.sent_final_finish)
          (push_decrypted_content lib tools t upstream index content)
  unfolding push_decrypted_content Sends
  push_decrypted_content-Once t upstream index content =
      let sent = Once t.sent_role t.sent_final_finish in
      let pending = t.pending_text ++ content in
      let buffered = record t { tool_buffer = t.tool_buffer ++ content } in
      Sends-if sent t.buffering_tool_call _ _
        (λ e.
          Sends-then sent (ensure_tool_buffer_within_limit lib tools buffered) _
            (Once-nothing buffered))
        (λ e. elim (Option-cases (find tool_call_start_marker pending)) [
          | inl missing ↦
              subst (Sends sent) (sym (ground (arith, missing)))
                (stream_pending-Once t upstream index pending)
          | inr (i, found) ↦
              subst (Sends sent) (sym (ground (arith, found)))
                (start_buffering-Once t upstream index pending i)
        ])

  classified_chunks-Unfinished :
      (t : Transformer) (upstream : Value) (index : ℕ) (c : ToolOutputClassification lib.ToolError)
      → Sends (Unfinished t) (classified_chunks lib tools t upstream index c)
  unfolding classified_chunks Sends Unfinished
  classified_chunks-Unfinished t upstream index normal_text =
      text_chunk-Unfinished (record t { tool_buffer = []; buffering_tool_call = false }) upstream
        index t.tool_buffer
  classified_chunks-Unfinished t upstream index (tool_calls calls) =
      let t' = record t { emitted_tool_calls = true } in
      (
        tool_call_chunks-Once t' upstream index 0 calls,
        tool_call_chunks-same t' upstream index 0 calls,
      )
  classified_chunks-Unfinished t upstream index (invalid_tool_call e output) = tt

  flush-Unfinished :
      (t : Transformer) (upstream : Value) (index : ℕ)
      → Sends (Unfinished t) (flush lib tools t upstream index)
  unfolding flush buffered_tool_call_chunks Sends Unfinished
  flush-Unfinished t upstream index =
      let flushed = record t { pending_text = [] } in
      Sends-if (Unfinished t) t.buffering_tool_call _ _
        (λ e. Sends-then (Unfinished t) (ensure_tool_buffer_within_limit lib tools t) _ (
          classified_chunks-Unfinished t upstream index
            (classify_assistant_output tools t.tool_buffer)))
        (λ e.
          Sends-if (Unfinished t) t.suppress_normal_output _ _ (λ e'. tt)
            (λ e'.
              either (Unfinished t) (is_empty t.pending_text) _ _ (Once-nothing t, refl)
                (text_chunk-Unfinished flushed upstream index t.pending_text)))

  final_reason-present :
      (t : Transformer) (reason : Value)
      → is_null reason ≡ false
      → is_null (final_reason lib tools t reason) ≡ false
  unfolding final_reason
  final_reason-present t reason h = elim (Bool-cases t.emitted_tool_calls) [
    | inl e ↦ ground (arith, e)
    | inr e ↦ ground (arith, e, h)
  ]

  -- Exactly one finish chunk, and nothing more after it.
  unfoldable pub Finished : Transformer → Sent → Type 0
  Finished t (t', outputs) =
      Once t.sent_role t.sent_final_finish (t', outputs) × (t'.sent_final_finish ≡ true)

  pub finish_buffered_content-Finished :
      (t : Transformer) (upstream : Value) (index : ℕ) (reason : Value)
      → t.sent_final_finish ≡ false
      → is_null reason ≡ false
      → Sends (Finished t) (finish_buffered_content lib tools t upstream index reason)
  unfolding finish_buffered_content Sends Finished Unfinished
  finish_buffered_content-Finished t upstream index reason unsent present =
      Sends-bind (Finished t) (flush lib tools t upstream index) _ (λ flushed e.
        let (once, same) =
          Sends-ok (Unfinished t) _ flushed (flush-Unfinished t upstream index) e in
        let t' = flushed.0 in
        (
          Once-append t.sent_role t.sent_final_finish t' (record t' { sent_final_finish = true })
              flushed.1 _ once
              (finish_chunk-Once t' upstream index (final_reason lib tools t' reason)
                (same ∙ unsent) (final_reason-present t' reason present)),
          refl,
        ))
