-- ===== src/Stream/Tool/Suppressed.antt =====
-- A corrected attempt, whose normal output is suppressed.
use venice_e2ee_proxy.Base.{
  ℕ, ◌≡◌, refl, sym, ap, ◌∙◌, subst, Bool, true, List, [], ◌∷◌, ◌++◌, Option-cases, ok, arith, inl,
  inr, drop,
}
use venice_e2ee_proxy.Text.{Text}
use venice_e2ee_proxy.Text.Search.{find}
use venice_e2ee_proxy.Json.{Value}
use venice_e2ee_proxy.Tools.{ToolEmulationContext}
use venice_e2ee_proxy.Stream.{StreamLib, StreamError, StreamOutput}
use venice_e2ee_proxy.Stream.Chunk.{ChunkContext}
use venice_e2ee_proxy.Stream.Sends.{Sends, Sends-bind, Sends-then, Sends-if, Sends-ok}
use venice_e2ee_proxy.Stream.Tool.{
  Transformer, new_transformer, tool_call_start_marker, start_buffering, stream_pending,
  push_decrypted_content, ensure_tool_buffer_within_limit, ensure_pending_text_within_limit,
}
use venice_e2ee_proxy.Stream.Tool.Pushes.{Piece, pushes}

-- Nothing is sent, and output stays suppressed.
abbrev Silent : Transformer × List StreamOutput → Type 0
Silent (t, outputs) = (outputs ≡ []) × (t.suppress_normal_output ≡ true)

module _ (lib : StreamLib) (tools : ToolEmulationContext lib.ToolError) where
  silent :
      (t : Transformer)
      → t.suppress_normal_output ≡ true
      → Sends {Err = StreamError lib} Silent (ok (t, []))
  unfolding Sends
  silent t h = (refl, h)

  start_buffering-Silent :
      (t : Transformer) (upstream : Value) (index : ℕ) (pending : Text) (i : ℕ)
      → t.suppress_normal_output ≡ true
      → Sends Silent (start_buffering lib tools t upstream index pending i)
  unfolding start_buffering
  start_buffering-Silent t upstream index pending i h =
      let t' = record t {
        tool_buffer = drop i pending;
        pending_text = [];
        buffering_tool_call = true;
      } in
      Sends-then Silent (ensure_tool_buffer_within_limit lib tools t') _
        (subst (Sends Silent) (sym (ground (arith, h))) (silent t' h))

  stream_pending-Silent :
      (t : Transformer) (upstream : Value) (index : ℕ) (pending : Text)
      → t.suppress_normal_output ≡ true
      → Sends Silent (stream_pending lib tools t upstream index pending)
  unfolding stream_pending
  stream_pending-Silent t upstream index pending h =
      let held = record t { pending_text = pending } in
      Sends-if Silent t.suppress_normal_output _ _
        (λ e. Sends-then Silent (ensure_pending_text_within_limit lib tools held) _ (silent held h))
        (λ e. ground (arith, e, h))

  push_decrypted_content-Silent :
      (t : Transformer) (upstream : Value) (index : ℕ) (content : Text)
      → t.suppress_normal_output ≡ true
      → Sends Silent (push_decrypted_content lib tools t upstream index content)
  unfolding push_decrypted_content
  push_decrypted_content-Silent t upstream index content h =
      let pending = t.pending_text ++ content in
      let buffered = record t { tool_buffer = t.tool_buffer ++ content } in
      Sends-if Silent t.buffering_tool_call _ _
        (λ e.
          Sends-then Silent (ensure_tool_buffer_within_limit lib tools buffered) _
            (silent buffered h))
        (λ e. elim (Option-cases (find tool_call_start_marker pending)) [
          | inl missing ↦
              subst (Sends Silent) (sym (ground (arith, missing)))
                (stream_pending-Silent t upstream index pending h)
          | inr (i, found) ↦
              subst (Sends Silent) (sym (ground (arith, found)))
                (start_buffering-Silent t upstream index pending i h)
        ])

  pushes-Silent :
      (ps : List Piece) (t : Transformer)
      → t.suppress_normal_output ≡ true
      → Sends Silent (pushes lib tools t ps)
  unfolding pushes Sends
  pushes-Silent [] t h = (refl, h)
  pushes-Silent (p ∷ ps) t h =
      Sends-bind Silent (push_decrypted_content lib tools t p.upstream p.index p.content) _
        (λ first e.
          let (none_first, still) =
            Sends-ok Silent _ first (push_decrypted_content-Silent t p.upstream p.index p.content h)
              e in
          Sends-bind Silent (pushes lib tools first.0 ps) _ (λ rest e'.
            let (none_rest, on) = Sends-ok Silent _ rest (pushes-Silent ps first.0 still) e' in
            (ap (λ z. z ++ rest.1) none_first ∙ none_rest, on)))

  -- A corrected attempt streams none of the decrypted text while it comes in, in whatever pieces,
  -- with or without a tool-call marker.
  pub pushes-suppressed :
      (ctx : ChunkContext) (include_usage : Bool) (ps : List Piece) (t : Transformer)
      (outputs : List StreamOutput)
      → pushes lib tools (new_transformer ctx include_usage true) ps ≡ ok (t, outputs)
      → outputs ≡ []
  unfolding new_transformer
  pushes-suppressed ctx include_usage ps t outputs e =
      (Sends-ok Silent _ (t, outputs)
        (pushes-Silent ps (new_transformer ctx include_usage true) refl) e).0
