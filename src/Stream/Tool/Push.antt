-- ===== src/Stream/Tool/Push.antt =====
-- One piece of decrypted text: `push_decrypted_content` while normal output is not suppressed.
use venice_e2ee_proxy.Base.{
  ℕ, ◌≤◌, ◌≡◌, refl, sym, ap, subst, ◌∙◌, ◌⊎◌, inl, inr, true, false, [], ◌∷◌, ◌++◌, Option, none,
  some, length, take, drop, arith, Option-cases, Bool-cases, append-nil, append_assoc, ok,
  take-append-drop,
}
use venice_e2ee_proxy.Text.{Text}
use venice_e2ee_proxy.Text.Search.{find}
use venice_e2ee_proxy.Text.Bytes.{byte_len, byte_len-append}
use venice_e2ee_proxy.Text.Marker.{
  Clear, shifted, find-Clear, Clear-find-none, Clear-find-some, Clear-append, Clear-split,
  starts_with_more, starts_with-length,
}
use venice_e2ee_proxy.Json.{Value}
use venice_e2ee_proxy.Tools.{ToolEmulationContext}
use venice_e2ee_proxy.Stream.{StreamLib}
use venice_e2ee_proxy.Stream.Tool.{
  Transformer, streamable_pending_text, text_chunk_if_not_empty, start_buffering, stream_pending,
  push_decrypted_content, ensure_tool_buffer_within_limit, text_field_chunk, delta_chunk,
}
use venice_e2ee_proxy.Stream.Tool.Streamed.{
  marker, streamed_contents, text_chunk, streamable_pending_text-append, held, Phase, IsStreaming,
  Clear-more, Step,
}

module _ (lib : StreamLib) (tools : ToolEmulationContext lib.ToolError) where
  within_limit :
      (t : Transformer)
      → byte_len t.tool_buffer ≤ tools.tool_call_max_bytes
      → ensure_tool_buffer_within_limit lib tools t ≡ ok tt
  unfolding ensure_tool_buffer_within_limit
  within_limit t h = ground (arith, h)

  -- From the marker on, everything is held back.
  push_buffering :
      (streamed : Text) (t : Transformer) (upstream : Value) (index : ℕ) (content : Text)
      → IsStreaming streamed t
      → t.buffering_tool_call ≡ true
      → byte_len (held t ++ content) ≤ tools.tool_call_max_bytes
      → Step lib streamed t content (push_decrypted_content lib tools t upstream index content)
  unfolding Step push_decrypted_content IsStreaming held Phase streamed_contents
  push_buffering streamed t upstream index content (clear, enough, phase, loud) e limit =
      let (empty, start, long) = subst (λ b. Phase b t.pending_text t.tool_buffer) e phase in
      let t' = record t { tool_buffer = t.tool_buffer ++ content } in
      let kept = append_assoc t.pending_text t.tool_buffer content in
      let fits =
        subst (λ p. byte_len ((p ++ t.tool_buffer) ++ content) ≤ tools.tool_call_max_bytes) empty
          limit in
      let checked = within_limit t' fits in
      (
        t',
        [],
        ground (arith, e, checked),
        sym kept,
        (
          subst (λ s. Clear marker s (held t')) (sym (append-nil streamed))
              (subst (Clear marker streamed) kept
                (Clear-more streamed (held t) content clear enough)),
          inr (
              omega (
                arith,
                long,
                byte_len-append t.pending_text t'.tool_buffer,
                byte_len-append t.tool_buffer content,
              )),
          subst (λ b. Phase b t.pending_text t'.tool_buffer) (sym e)
              (
                empty,
                starts_with_more marker t.tool_buffer content start,
                omega (arith, long, byte_len-append t.tool_buffer content),
              ),
          loud,
        ),
      )

  -- The chunk of what is streamed, from a transformer that already holds back the rest.
  streamed_chunk :
      (streamed : Text) (t t' : Transformer) (upstream : Value) (index : ℕ) (content now : Text)
      → now ++ held t' ≡ held t ++ content
      → IsStreaming (streamed ++ now) t'
      → Step lib streamed t content (ok (text_chunk_if_not_empty t' upstream index now))
  unfolding Step IsStreaming held text_chunk_if_not_empty text_field_chunk delta_chunk
      streamed_contents
  streamed_chunk streamed t t' upstream index content [] whole next = (t', [], refl, whole, next)
  streamed_chunk streamed t t' upstream index content (c ∷ now) whole next =
      let (same, _, _, _, _) = text_chunk t' upstream index (c ∷ now) in
      let (t'', outputs) = text_chunk_if_not_empty t' upstream index (c ∷ now) in
      (
        t'',
        outputs,
        refl,
        subst (λ z. z ++ held t' ≡ held t ++ content) (sym same) whole,
        subst (λ z. IsStreaming (streamed ++ z) t') (sym same) next,
      )

  held_pending : (t : Transformer) → t.tool_buffer ≡ [] → held t ≡ t.pending_text
  unfolding held
  held_pending t e = ap (λ z. t.pending_text ++ z) e ∙ append-nil t.pending_text

  -- The marker is found in the pending text.
  push_marker :
      (streamed : Text) (t : Transformer) (upstream : Value) (index : ℕ) (content : Text) (i : ℕ)
      → IsStreaming streamed t
      → t.buffering_tool_call ≡ false
      → find marker (t.pending_text ++ content) ≡ some i
      → byte_len (held t ++ content) ≤ tools.tool_call_max_bytes
      → Step lib streamed t content
          (start_buffering lib tools t upstream index (t.pending_text ++ content) i)
  unfolding start_buffering IsStreaming Phase held
  push_marker streamed t upstream index content i (clear, enough, phase, loud) e found limit =
      let p = t.pending_text ++ content in
      let (empty, _) = subst (λ b. Phase b t.pending_text t.tool_buffer) e phase in
      let all = ap (λ z. z ++ content) (held_pending t empty) in
      let (before, start, _) = Clear-find-some marker p i found in
      let long = starts_with-length marker (drop i p) start in
      let parts = take-append-drop i p in
      let fits = subst (λ z. byte_len z ≤ tools.tool_call_max_bytes) (all ∙ sym parts) limit in
      let t' = record t { tool_buffer = drop i p; pending_text = []; buffering_tool_call = true } in
      let checked = within_limit t' (omega (arith, fits, byte_len-append (take i p) (drop i p))) in
      subst (Step lib streamed t content) (sym (ground (arith, checked, loud))) (
        streamed_chunk streamed t t' upstream index content (take i p) (parts ∙ sym all) (
          Clear-append marker streamed (take i p) (drop i p)
              (subst (Clear marker streamed) (all ∙ sym parts)
                (Clear-more streamed (held t) content clear enough))
              before,
          inr (omega (arith, long)),
          (refl, start, omega (arith, long)),
          loud,
        ))

  shifted-none : (n : ℕ) (o : Option ℕ) → shifted n o ≡ none → o ≡ none
  unfolding shifted
  shifted-none n none e = refl
  shifted-none n (some i) e = cc

  -- What is cut off is safe, if more than nothing is cut off or was streamed before.
  long_enough :
      (streamed before content now kept : Text)
      → (streamed ≡ []) ⊎ (10 ≤ byte_len before)
      → (now ≡ []) ⊎ (10 ≤ byte_len kept)
      → now ++ kept ≡ before ++ content
      → (streamed ++ now ≡ []) ⊎ (10 ≤ byte_len kept)
  long_enough streamed before content now kept enough (inr long) whole = inr long
  long_enough streamed before content now kept (inl none_streamed) (inl none_now) whole =
      inl (rw (none_streamed, none_now))
  long_enough streamed before content now kept (inr long) (inl none_now) whole =
      let same = ap byte_len (subst (λ z. z ++ kept ≡ before ++ content) none_now whole) in
      inr (omega (arith, same, byte_len-append before content, long))

  -- No marker is in the pending text.
  push_pending :
      (streamed : Text) (t : Transformer) (upstream : Value) (index : ℕ) (content : Text)
      → IsStreaming streamed t
      → t.buffering_tool_call ≡ false
      → find marker (t.pending_text ++ content) ≡ none
      → Step lib streamed t content
          (stream_pending lib tools t upstream index (t.pending_text ++ content))
  unfolding stream_pending IsStreaming Phase
  push_pending streamed t upstream index content (clear, enough, phase, loud) e missing =
      let p = t.pending_text ++ content in
      let (empty, _) = subst (λ b. Phase b t.pending_text t.tool_buffer) e phase in
      let all = ap (λ z. z ++ content) (held_pending t empty) in
      let (now, kept) = streamable_pending_text p in
      let (whole, safe) = streamable_pending_text-append p in
      let t' = record t { pending_text = kept } in
      let back = held_pending t' empty in
      let clear_now = subst (Clear marker now) (append-nil kept) (
        Clear-split marker now kept []
          (subst (λ z. Clear marker z []) (sym whole) (Clear-find-none marker p missing))) in
      let further = sym (find-Clear marker now kept clear_now) ∙ ap (find marker) whole ∙ missing in
      subst (Step lib streamed t content) (sym (ground (arith, loud))) (
        streamed_chunk streamed t t' upstream index content now
          (ap (λ z. now ++ z) back ∙ whole ∙ sym all)
          (
            subst (Clear marker (streamed ++ now)) (sym back) (
                Clear-append marker streamed now kept
                  (subst (Clear marker streamed) (all ∙ sym whole)
                    (Clear-more streamed (held t) content clear enough))
                  clear_now),
            subst (λ z. (streamed ++ now ≡ []) ⊎ (10 ≤ byte_len z)) (sym back)
                (long_enough streamed (held t) content now kept enough safe (whole ∙ sym all)),
            subst (λ b. Phase b kept t.tool_buffer) (sym e)
                (empty, shifted-none (length now) _ further),
            loud,
          ))

  -- One piece of text within the limit: the transformer takes it and goes on.
  pub push_decrypted_content-Step :
      (streamed : Text) (t : Transformer) (upstream : Value) (index : ℕ) (content : Text)
      → IsStreaming streamed t
      → byte_len (held t ++ content) ≤ tools.tool_call_max_bytes
      → Step lib streamed t content (push_decrypted_content lib tools t upstream index content)
  unfolding push_decrypted_content
  push_decrypted_content-Step streamed t upstream index content h limit =
      elim (Bool-cases t.buffering_tool_call) [
        | inl e ↦ push_buffering streamed t upstream index content h e limit
        | inr e ↦ elim (Option-cases (find marker (t.pending_text ++ content))) [
          | inr (i, found) ↦
              subst (Step lib streamed t content) (sym (ground (arith, e, found)))
                (push_marker streamed t upstream index content i h e found limit)
          | inl missing ↦
              subst (Step lib streamed t content) (sym (ground (arith, e, missing)))
                (push_pending streamed t upstream index content h e missing)
        ]
      ]
